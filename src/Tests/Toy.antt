-- ===== src/Tests/Toy.antt =====
-- A toy platform that satisfies the laws assumed of the browser and of node-forge: ciphers that add
-- the vector in front or do nothing, and digests that only know a length.
use file_market.Base.{
  ℕ, zero, suc, ◌*◌, ◌/◌, ◌%◌, ◌<◌, ◌≡◌, refl, sym, ap, ◌∙◌, inl, inr, true, false, none, [], ◌∷◌,
  ◌++◌, arith, leb, ◌==◌, if◌then◌else◌, ==_iff, Bool-cases, length, drop, drop-append_length,
}
use file_market.Base.Result.{ok, err, if-eq-ok}
use file_market.Crypto.Bytes.{Bytes, Text, IsBytes}
use file_market.Crypto.Platform.{Subtle, Forge, AesLaws, DeriveLaws}
use file_market.Crypto.Derivation.{rsa_generate_key_pair}
use file_market.Crypto.Rsa.{RsaLaws}
use file_market.Processing.HiddenFile.{Crypto}
use file_market.Processing.HiddenFile.Password.{CryptoLaws}

abbrev pub replicate : ℕ → ℕ → Bytes
replicate zero b = []
replicate (suc n) b = b ∷ replicate n b

pub length-replicate : (n b : ℕ) → length (replicate n b) ≡ n
length-replicate zero b = refl
length-replicate (suc n) b = omega (arith, length-replicate n b)

pub replicate-IsBytes : (n b : ℕ) → b < 256 → IsBytes (replicate n b)
replicate-IsBytes zero b h = tt
replicate-IsBytes (suc n) b h = (h, replicate-IsBytes n b h)

abbrev pub toy_subtle : Subtle
toy_subtle = record {
  CryptoKey = Bytes;
  digest = λ d. replicate 64 (length d % 256);
  derive_bits = λ salt ikm info l. ok (replicate (l / 8) (length info % 256));
  import_aes = λ k. if length k == 32 then ok k else err "bad key";
  aes_encrypt = λ k iv d. if length iv == 16 then ok (iv ++ d) else err "bad vector";
  aes_decrypt = λ k iv d. ok (drop (length iv) d);
  import_spki = λ k. ok k;
  import_pkcs8 = λ k. ok k;
  rsa_encrypt = λ random k m. if leb (length m) 382 then ok m else err "too long";
  rsa_decrypt = λ k m. ok m;
}

abbrev pub toy_forge : Forge
toy_forge = record {
  PublicKey = Text;
  PrivateKey = Text;
  generate = λ bits seed. (seed, seed);
  public_to_der = λ k. k;
  private_to_der = λ k. k;
}

abbrev pub toy : Crypto
toy = record {
  subtle = toy_subtle;
  forge = toy_forge;
  worker_error = none;
  is_firefox = false;
  get_address = λ a. ok a;
}

pub toy_aes : AesLaws toy_subtle
toy_aes = record {
  digest_length = λ d. length-replicate 64 (length d % 256);
  digest_bytes = λ d. replicate-IsBytes 64 (length d % 256) (omega arith);
  import_aes_ok = λ k h. (k, rw ((==_iff (length k) 32).1 h));
  encrypt_ok = λ ck iv d h. (iv ++ d, rw ((==_iff (length iv) 16).1 h));
  decrypt-encrypt = λ ck iv d c e. elim (Bool-cases (length iv == 16)) [
    | inl p ↦
        let same : iv ++ d ≡ c = (if-eq-ok (length iv == 16) (iv ++ d) c "bad vector" e).1 in
        ap (λ (r : Bytes). ok (drop (length iv) r)) (sym same)
        ∙ ap (λ r. ok r) (drop-append_length iv d)
    | inr q ↦ let e' = rw q at e in cc
  ];
}

pub toy_derive : DeriveLaws toy_subtle
toy_derive = record {
  derive_ok = λ salt ikm info octets h. (
    replicate (8 * octets / 8) (length info % 256),
    refl,
    omega (arith, length-replicate (8 * octets / 8) (length info % 256)),
    replicate-IsBytes (8 * octets / 8) (length info % 256) (omega arith),
  );
}

pub toy_rsa : RsaLaws toy_subtle toy_forge
toy_rsa = record {
  import_spki_ok = λ seed. ((rsa_generate_key_pair toy_forge seed).pub_key, refl);
  import_pkcs8_ok = λ seed. ((rsa_generate_key_pair toy_forge seed).priv_key, refl);
  rsa_encrypt_ok = λ seed random m k e bytes h.
      (m, (let p : leb (length m) 382 ≡ true = ground arith in rw p), bytes);
  rsa_decrypt-encrypt = λ seed random m c k l e p q.
      sym (ap (λ (x : Bytes). ok x) (if-eq-ok (leb (length m) 382) m c "too long" q).1);
}

pub toy_laws : CryptoLaws toy
toy_laws = record { aes = toy_aes; derive = toy_derive; rsa = toy_rsa; worker_runs = refl }
