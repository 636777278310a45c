-- ===== src/Tests/Auth.antt =====
-- A user who logs in and out.
use file_market.Base.{ℕ, ◌≡◌, refl, true, false, none, some, []}
use file_market.Stores.ErrorText.{text}
use file_market.Stores.Request.{new_requester, Store, rejected}
use file_market.Stores.Auth.{
  JwtTokenInfo, AuthResponse, AuthContent, set_auth_data, check_auth_answer, refresh_answer,
}
use file_market.Stores.Auth.Sessions.{HasLoggedOut, check_auth_answer-rejected}

abbrev guest : AuthContent ℕ
guest = record { local = []; cookie = ""; user = none; is_auth = none }

abbrev access : JwtTokenInfo
access = record { token = "aaa"; expires_at = 90000 }

abbrev refresh : JwtTokenInfo
refresh = record { token = "rrr"; expires_at = 180000 }

abbrev welcome : AuthResponse ℕ
welcome = record { access_token = some access; refresh_token = some refresh; profile = some 7 }

abbrev idle : Store (AuthContent ℕ)
idle = record { requester = new_requester; content = guest }

abbrev checking : Store (AuthContent ℕ)
checking = record {
  requester = record {
    is_loading = true;
    is_loaded = false;
    request_count = 1;
    current_request = some 1;
    shown = [];
  };
  content = set_auth_data welcome guest;
}

check_auth_answer-rejected_example :
    HasLoggedOut (text "gone") checking (check_auth_answer 1 (rejected (text "gone")) checking)
    × HasLoggedOut (text "gone") checking (refresh_answer 1 (rejected (text "gone")) checking)
    × (check_auth_answer 0 (rejected (text "gone")) checking ≡ checking)
    × (refresh_answer 0 (rejected (text "gone")) checking ≡ checking)
check_auth_answer-rejected_example = check_auth_answer-rejected 1 0 (text "gone") checking refl refl
