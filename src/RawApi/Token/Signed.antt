-- ===== src/RawApi/Token/Signed.antt =====
-- What a token is that `verify_token` of src/raw_api.rs accepts.
use rpc_latency_monitor.Prelude.{
  ℕ, ◌≡◌, ◌≢◌, ◌↔◌, refl, ap, ◌∙◌, String, true, false, not, some, List, [], ◌∷◌, ==_iff, string_eq,
  ◌<>◌, split_at, is_blank_text, arith,
}
use rpc_latency_monitor.Prelude.Steps.{◌>>=◌, bind_some, need_some}
use rpc_latency_monitor.Crates.{Crates}
use rpc_latency_monitor.RawApi.Token.{three_parts, part_value, verify_token}

module _ ⦃c : Crates⦄ where
  open c use {Value, get, as_str, as_f64, F64, decode_base64_url, verify_hmac, f64_le, secs_f64}

  -- Three parts with the tag of the first two under the secret, a header that names HS256, and a
  -- payload with the subject and a time that is still to come.
  pub record IsToken (now : ℕ) (token secret sub : String) : Type 0 where
    pub header_part : String
    pub payload_part : String
    pub signature_part : String
    pub parts : split_at b'.' token ≡ header_part ∷ payload_part ∷ signature_part ∷ []
    pub tag : List ℕ
    pub decoded : decode_base64_url signature_part ≡ some tag
    pub signed : verify_hmac secret (header_part <> "." <> payload_part) tag ≡ true
    pub header : Value
    pub header_read : part_value header_part ≡ some header
    pub alg : Value
    pub alg_read : get header "alg" ≡ some alg
    pub hs256 : as_str alg ≡ some "HS256"
    pub payload : Value
    pub payload_read : part_value payload_part ≡ some payload
    pub subject : Value
    pub subject_read : get payload "sub" ≡ some subject
    pub subject_text : as_str subject ≡ some sub
    pub named : sub ≢ ""
    pub expiry : Value
    pub expiry_read : get payload "exp" ≡ some expiry
    pub exp : F64
    pub exp_read : as_f64 expiry ≡ some exp
    pub valid : f64_le exp (secs_f64 now) ≡ false

  some_injective : {A : Type 0} (a b : A) → some a ≡ some b → a ≡ b
  some_injective a b h = cc

  not_blank : (s : String) → not (is_blank_text s) ≡ true → s ≢ ""
  not_blank s h e = ground (arith, ap is_blank_text e)

  blank_false : (s : String) → s ≢ "" → is_blank_text s ≡ false
  blank_false String.[] h = absurd (h refl)
  blank_false (String.◌∷◌ c s) h = refl

  three_parts-of :
      (parts : List String) (h p s : String)
      → three_parts parts ≡ some (h, p, s)
      → parts ≡ h ∷ p ∷ s ∷ []
  three_parts-of [] h p s e = cc
  three_parts-of (a ∷ []) h p s e = cc
  three_parts-of (a ∷ b ∷ []) h p s e = cc
  three_parts-of (a ∷ b ∷ d ∷ []) h p s e = cc
  three_parts-of (a ∷ b ∷ d ∷ x ∷ xs) h p s e = cc

  accepted-IsToken :
      (now : ℕ) (token secret sub : String)
      → verify_token now token secret ≡ some sub
      → IsToken now token secret sub
  unfolding verify_token
  accepted-IsToken now token secret sub h0 = bind_some _ _ _ h0 λ parts split h1.
      bind_some _ _ _ h1 λ tag decoded h2. need_some _ _ _ h2 λ signed h3.
        bind_some _ _ _ h3 λ header header_read h4. bind_some _ _ _ h4 λ alg alg_read h5.
          bind_some _ _ _ h5 λ name name_read h6. need_some _ _ _ h6 λ hs256 h7.
            bind_some _ _ _ h7 λ payload payload_read h8.
              bind_some _ _ _ h8 λ subject subject_read h9. bind_some _ _ _ h9 λ s subject_text h10.
                need_some _ _ _ h10 λ named h11. bind_some _ _ _ h11 λ expiry expiry_read h12.
                  bind_some _ _ _ h12 λ exp exp_read h13. need_some _ _ _ h13 λ valid h14.
                    let is_sub = some_injective _ _ h14 in
                    record {
                      header_part = parts.0;
                      payload_part = parts.1;
                      signature_part = parts.2;
                      parts = three_parts-of (split_at b'.' token) parts.0 parts.1 parts.2 split;
                      tag = tag;
                      decoded = decoded;
                      signed = signed;
                      header = header;
                      header_read = header_read;
                      alg = alg;
                      alg_read = alg_read;
                      hs256 = name_read ∙ ap some ((==_iff name "HS256").0 hs256);
                      payload = payload;
                      payload_read = payload_read;
                      subject = subject;
                      subject_read = subject_read;
                      subject_text = subject_text ∙ h14;
                      named = λ e. not_blank s named (is_sub ∙ e);
                      expiry = expiry;
                      expiry_read = expiry_read;
                      exp = exp;
                      exp_read = exp_read;
                      valid = ground arith;
                    }

  accepted-of :
      (now : ℕ) (token secret sub : String)
      → IsToken now token secret sub
      → verify_token now token secret ≡ some sub
  unfolding verify_token ◌>>=◌
  accepted-of now token secret sub t =
      rw
        (
          t.parts,
          t.decoded,
          t.signed,
          t.header_read,
          t.alg_read,
          t.hs256,
          t.payload_read,
          t.subject_read,
          t.subject_text,
          blank_false sub t.named,
          t.expiry_read,
          t.exp_read,
          t.valid,
        )
        refl

  -- A token is accepted, as that of a subject, exactly if it has three parts, the third is the tag
  -- of the first two under the secret, the header names HS256, and the payload has the subject,
  -- which is not empty, and a time that is later than the present.
  pub verify_token_iff :
      (now : ℕ) (token secret sub : String)
      → (verify_token now token secret ≡ some sub) ↔ IsToken now token secret sub
  verify_token_iff now token secret sub =
      (accepted-IsToken now token secret sub, accepted-of now token secret sub)
