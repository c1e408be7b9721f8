-- ===== src/Auth/Runtime.antt =====
-- What the authentication code takes from Python's standard library, python-jose and bcrypt, with the
-- behaviour that it relies on. A signed token is an opaque text there: only the library reads it.
use ai_knowledge_hub.Base.{ℕ, ◌≤◌, ◌<◌, ◌≡◌, String, Bool, true, Option, none, some}

-- Python's `int`.
pub data ℤ : Type 0 where
  pos negsuc : ℕ → ℤ

-- A value of a decoded JSON object; `other` holds the text of any value of another kind.
pub data Json : Type 0 where
  text other : String → Json
  number : ℕ → Json

-- The claims that the code reads of a token's payload, `none` for a missing key.
pub record Payload : Type 0 where
  pub sub : Option Json
  pub kind : Option Json
  pub sid : Option Json
  pub jti : Option Json
  pub iat : Option Json
  pub exp : Option Json

abbrev pub text_or_missing : Option String → Option Json
text_or_missing none = none
text_or_missing (some s) = some (Json.text s)

-- A payload of texts and of times in whole seconds.
abbrev pub written : String → String → String → Option String → ℕ → ℕ → Payload
written sub kind sid jti iat exp = record {
  sub = some (Json.text sub);
  kind = some (Json.text kind);
  sid = some (Json.text sid);
  jti = text_or_missing jti;
  iat = some (Json.number iat);
  exp = some (Json.number exp);
}

pub record Runtime : Type 1 where
  pub Token : Type 0
  -- `jwt.encode` with a payload, a secret and the `kid` of the header.
  pub encode : Payload → String → String → Token
  -- The `kid` of `jwt.get_unverified_header`; nothing for a `JWTError`.
  pub unverified_kid : Token → Option (Option Json)
  -- `jwt.decode` with a secret, at a time; nothing for a `JWTError`.
  pub decode : Token → String → ℕ → Option Payload
  -- `int` of a JSON value, and `str` of a number.
  pub int : Json → Option ℤ
  pub str : ℕ → String
  -- `sha256(text.encode("utf-8")).hexdigest()`, of a token and of a text.
  pub hash_token : Token → String
  pub hash_text : String → String
  pub lower : String → String
  -- `bcrypt.hashpw` with a salt, and `bcrypt.checkpw`.
  pub hashpw : String → String → String
  pub checkpw : String → String → Bool
  pub unverified_kid-encode :
      (p : Payload) (secret key_id : String)
      → unverified_kid (encode p secret key_id) ≡ some (some (Json.text key_id))
  -- A payload with the required claims comes back until it expires.
  pub decode-encode :
      (sub kind sid : String) (jti : Option String) (iat exp : ℕ) (secret key_id : String) (now : ℕ)
      → now ≤ exp
      → decode (encode (written sub kind sid jti iat exp) secret key_id) secret now
        ≡ some (written sub kind sid jti iat exp)
  pub decode-expired :
      (p : Payload) (exp : ℕ) (secret key_id : String) (now : ℕ)
      → p.exp ≡ some (Json.number exp)
      → exp < now
      → decode (encode p secret key_id) secret now ≡ none
  -- What comes back does not depend on the time.
  pub decode-same :
      (token : Token) (secret : String) (now later : ℕ) (p q : Payload)
      → decode token secret now ≡ some p
      → decode token secret later ≡ some q
      → p ≡ q
  pub int-str : (n : ℕ) → int (Json.text (str n)) ≡ some (ℤ.pos n)
  pub int-number : (n : ℕ) → int (Json.number n) ≡ some (ℤ.pos n)
  pub checkpw-hashpw : (password salt : String) → checkpw password (hashpw password salt) ≡ true
