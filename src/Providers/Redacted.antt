-- ===== src/Providers/Redacted.antt =====
-- What `redacted_url` of src/providers.rs shows of an address.
use rpc_latency_monitor.Prelude.{
  ℕ, ◌≡◌, ◌≢◌, refl, ap, ◌∙◌, String, Char, code, true, false, some, ◌==◌, nat_eq, or_false, ◌<>◌,
  has_char, split_once, is_blank_text, before_too,
}
use rpc_latency_monitor.Providers.{until, since_at, ends_authority, host_of, redacted_url}

-- A host, with or without a port.
abbrev pub IsPlain : String → Type 0
IsPlain s = (has_char b'/' s ≡ false) × (has_char b'?' s ≡ false) × (has_char b'@' s ≡ false)

until-plain :
    (s rest : String) (c : Char)
    → has_char b'/' s ≡ false
    → has_char b'?' s ≡ false
    → ends_authority (code c) ≡ true
    → until ends_authority (s <> String.◌∷◌ c rest) ≡ s
until-plain String.[] rest c h k ends = rw ends refl
until-plain (String.◌∷◌ d s) rest c h k ends =
    let (slash, h') = or_false (code d == b'/') (has_char b'/' s) h in
    let (query, k') = or_false (code d == b'?') (has_char b'?' s) k in
    rw (slash, query) (ap (String.◌∷◌ d) (until-plain s rest c h' k' ends))

since_at-plain : (s last : String) → has_char b'@' s ≡ false → since_at last s ≡ last
since_at-plain String.[] last h = refl
since_at-plain (String.◌∷◌ d s) last h =
    let (other, h') = or_false (code d == b'@') (has_char b'@' s) h in
    rw other (since_at-plain s last h')

-- What stands before the last `@` does not matter.
since_at-user :
    (user host last : String)
    → has_char b'@' host ≡ false
    → since_at last (user <> ("@" <> host)) ≡ host
since_at-user String.[] host last h = since_at-plain host host h
since_at-user (String.◌∷◌ d user) host last h = since_at-user user host _ h

has_char-append :
    (n : ℕ) (s t : String)
    → has_char n s ≡ false
    → has_char n t ≡ false
    → has_char n (s <> t) ≡ false
has_char-append n String.[] t h k = k
has_char-append n (String.◌∷◌ c s) t h k =
    let (other, rest) = or_false (code c == n) (has_char n s) h in
    rw other (has_char-append n s t rest k)

split_once-scheme :
    (s rest : String)
    → has_char b':' s ≡ false
    → split_once "://" (s <> ("://" <> rest)) ≡ some (s, rest)
split_once-scheme String.[] rest h = refl
split_once-scheme (String.◌∷◌ c s) rest h =
    let (other, plain) = or_false (code c == b':') (has_char b':' s) h in
    rw other (ap (before_too c) (split_once-scheme s rest plain))

not_blank : (s : String) → s ≢ "" → is_blank_text s ≡ false
not_blank String.[] h = absurd (h refl)
not_blank (String.◌∷◌ c s) h = refl

host_of-user :
    (user host rest : String) (c : Char)
    → has_char b'/' user ≡ false
    → has_char b'?' user ≡ false
    → IsPlain host
    → ends_authority (code c) ≡ true
    → host_of ((user <> ("@" <> host)) <> String.◌∷◌ c rest) ≡ host
host_of-user user host rest c slash query (hs, hq, ha) ends =
    ap (λ a. since_at a a)
      (until-plain (user <> ("@" <> host)) rest c (has_char-append b'/' user ("@" <> host) slash hs)
        (has_char-append b'?' user ("@" <> host) query hq) ends)
    ∙ since_at-user user host (user <> ("@" <> host)) ha

-- Of an address with a scheme, a user's part without `/` and `?`, a host with or without a port, and
-- a path or a query, only the scheme, the host and its port are shown: no part of the user, the
-- path or the query is.
pub redacted_url-host :
    (scheme user host rest : String) (c : Char)
    → scheme ≢ ""
    → has_char b':' scheme ≡ false
    → has_char b'/' user ≡ false
    → has_char b'?' user ≡ false
    → IsPlain host
    → ends_authority (code c) ≡ true
    → redacted_url (scheme <> ("://" <> ((user <> ("@" <> host)) <> String.◌∷◌ c rest)))
      ≡ scheme <> "://" <> host
unfolding redacted_url
redacted_url-host scheme user host rest c named colon slash query plain ends =
    rw
      (
        split_once-scheme scheme ((user <> ("@" <> host)) <> String.◌∷◌ c rest) colon,
        not_blank scheme named,
      )
      (ap (λ h. scheme <> "://" <> h) (host_of-user user host rest c slash query plain ends))
