-- ===== src/External.antt =====
-- What the service calls and does not implement: the codecs of JSON and base64, bcrypt, SHA-256 and
-- PyJWT. Each is a record of operations, taken as a parameter; the laws that a theorem needs are
-- records of their own, and concrete functions that meet them stand in the module of samples.
use accelerator_pack_auth_se.Prelude.{
  ℕ, ◌<◌, String, List, ◌≡◌, Bool, true, false, Option, some, str_eq,
}
use accelerator_pack_auth_se.Models.{Time, seconds}

-- What `json.loads` decodes: a list, with `str` applied to its elements, or something else.
pub data Decoded : Type 0 where
  items : List String → Decoded
  not_a_list : Decoded

-- `loads` is `none` where a `JSONDecodeError` is raised.
pub record JsonCodec : Type 0 where
  pub dumps : List String → String
  pub loads : String → Option Decoded

-- The list of texts is decoded from what it was encoded to, which is not the empty text.
pub record IsCodec (j : JsonCodec) (xs : List String) : Type 0 where
  pub loads-dumps : j.loads (j.dumps xs) ≡ some (items xs)
  pub dumps_nonempty : str_eq (j.dumps xs) "" ≡ false

-- `checkpw` is `none` where a `ValueError` is raised: the hash is malformed.
pub record Bcrypt : Type 0 where
  pub hashpw : String → String → String
  pub checkpw : String → String → Option Bool

-- A hash of the text accepts it; bcrypt refuses texts that are too long or have a NUL character.
pub record IsHash (b : Bcrypt) (plain : String) : Type 0 where
  pub accepts : (salt : String) → b.checkpw plain (b.hashpw plain salt) ≡ some true

pub record Header : Type 0 where
  pub kid : Option String
  pub typ : Option String

-- The claims of the tokens that the service writes; times are in seconds.
pub record Claims : Type 0 where
  pub sub : Option String
  pub email : Option String
  pub role : Option String
  pub name : Option String
  pub scope : Option String
  pub type : Option String
  pub principal_type : Option String
  pub client_id : Option String
  pub jti : Option String
  pub iss : Option String
  pub aud : List String
  pub exp : Option ℕ
  pub iat : Option ℕ

pub data Decoding : Type 0 where
  verified : Claims → Decoding
  expired_signature : Decoding
  invalid_token : Decoding

-- PyJWT with RS256: `encode` takes the claims, the private key and the header; `decode` takes the
-- token, the public key, the issuer and the instant. `get_unverified_header` is `none` where an
-- `InvalidTokenError` is raised.
pub record Jwt : Type 0 where
  pub encode : Claims → String → Header → String
  pub get_unverified_header : String → Option Header
  pub decode : String → String → String → Time → Decoding

-- The token of some claims, signed with a private key: its header can be read, and its claims are
-- accepted under the public key and the right issuer until they expire.
pub record IsSigned (j : Jwt) (c : Claims) (private_pem public_pem : String) (h : Header)
    : Type 0 where
  pub header-encode : j.get_unverified_header (j.encode c private_pem h) ≡ some h
  pub decode-encode :
      (issuer : String) (exp : ℕ) (now : Time)
      → c.iss ≡ some issuer
      → c.exp ≡ some exp
      → now < seconds exp
      → j.decode (j.encode c private_pem h) public_pem issuer now ≡ verified c

-- The claims that are decoded are the token's own payload, whatever the key and the instant.
pub record IsPayload (j : Jwt) (payload : String → Claims) : Type 0 where
  pub own :
      (token public_pem issuer : String) (now : Time) (c : Claims)
      → j.decode token public_pem issuer now ≡ verified c
      → c ≡ payload token

-- All of it together. `sha256` is the hexadecimal digest; `b64decode` is the strict base64 decoder
-- followed by the UTF-8 decoder, `none` where either raises.
pub record External : Type 0 where
  pub json : JsonCodec
  pub bcrypt : Bcrypt
  pub sha256 : String → String
  pub b64decode : String → Option String
  pub jwt : Jwt
