-- ===== src/Gamestream/Client.antt =====
-- libgamestream/client.c. The file's globals, the `SERVER_DATA` that its functions fill and what
-- they ask of the network are one state; a function that ends by `goto cleanup` with a code is a
-- step that exits with that code. What OpenSSL, libuuid, expat, curl and moonlight-common-c do is
-- the parameter `Host`.
pub mod Steps
pub mod Requests
pub mod ServerInfo
pub mod Pairing
pub mod Apps
pub mod KeyFiles
use moonlight_embedded_for_d.Base.{
  ℕ, suc, ◌+◌, ℤ, pos, Bool, true, false, List, [], ◌∷◌, Option, none, some, Text, if◌then◌else◌,
}
use moonlight_embedded_for_d.Gamestream.Errors.{is_ok}
use moonlight_embedded_for_d.Gamestream.Http.{CurlReply}
use moonlight_embedded_for_d.Gamestream.Xml.{XmlParse, DisplayMode}

-- `SERVER_DATA`, with the fields of its `serverInfo` that this code reads or writes. A null pointer
-- is `none`.
pub record Server : Type 0 where
  pub address : Text
  pub gpu_type : Option Text
  pub paired : Bool
  pub unsupported : Bool
  pub is_nvidia_software : Bool
  pub current_game : ℤ
  pub server_major_version : ℤ
  pub gs_version : Option Text
  pub modes : List DisplayMode
  pub app_version : Option Text
  pub gfe_version : Option Text
  pub codec_mode_support : ℤ
  pub rtsp_session_url : Option Text
  pub http_port : ℕ
  pub https_port : ℕ

-- The globals of client.c, the server, and what has happened outside: the addresses asked for,
-- newest first, and how many random numbers have been drawn.
pub record Session : Type 0 where
  pub server : Server
  pub error : Text
  pub unique_id : Text
  pub cert_hex : Text
  pub private_key : Option (List ℕ)
  pub requests : List Text
  pub draws : ℕ

-- What the libraries answer. Curl may answer by all that was asked before, and each draw gives
-- other random bytes.
pub record Host : Type 0 where
  pub curl : List Text → CurlReply
  pub expat : Text → XmlParse
  pub uuid : ℕ → Text
  pub random : ℕ → ℕ → List ℕ
  pub sha256 : List ℕ → List ℕ
  pub sha1 : List ℕ → List ℕ
  -- AES-128 in ECB mode: the key, then the data
  pub aes_encrypt : List ℕ → List ℕ → List ℕ
  pub aes_decrypt : List ℕ → List ℕ → List ℕ
  -- `PEM_read_bio_X509` and `X509_get0_signature`: the signature in a certificate
  pub pem_signature : Text → Option (List ℕ)
  -- `EVP_DigestVerify*` of data and a signature, by the key of a certificate
  pub digest_verify : List ℕ → List ℕ → Text → Bool
  -- `EVP_DigestSign*` by the client's private key, `none` where `sign_it` fails
  pub digest_sign : List ℕ → Option (List ℕ)
  -- the signature in the client's own certificate
  pub own_signature : List ℕ
  -- what uninitialised memory holds
  pub stale : List ℕ
  -- `LiGetLaunchUrlQueryParameters`
  pub launch_parameters : Text

pub data Outcome (A : Type 0) : Type 0 where
  done : A → Outcome A
  exit : ℤ → Outcome A

-- A step of a function of client.c.
abbrev pub M : Type 0 → Type 0
M A = Session → Outcome A × Session

infixl 5 ◌>>=◌ ◌>>◌
unfoldable pub ◌>>=◌ : {A B : Type 0} → M A → (A → M B) → M B
◌>>=◌ m f s = let (o, s') = m s in elim o [ done a ↦ f a s' | exit r ↦ (exit r, s') ]

unfoldable pub ◌>>◌ : {B : Type 0} → M (Unit {0}) → M B → M B
◌>>◌ m k s = let (o, s') = m s in elim o [ done _ ↦ k s' | exit r ↦ (exit r, s') ]

unfoldable pub pure : {A : Type 0} → A → M A
pure a s = (done a, s)

unfoldable pub leave : {A : Type 0} → ℤ → M A
leave r s = (exit r, s)

-- `gs_error = message; ret = code; goto cleanup`
unfoldable pub leave_saying : {A : Type 0} → Text → ℤ → M A
leave_saying message r s = (exit r, record s { error = message })

unfoldable pub modify_server : (Server → Server) → M (Unit {0})
modify_server f s = (done tt, record s { server = f s.server })

unfoldable pub server_of : M Server
server_of s = (done s.server, s)

unfoldable pub session_of : M Session
session_of s = (done s, s)

-- `if (!test) { ret = code; goto cleanup; }`
unfoldable pub require : Bool → ℤ → M (Unit {0})
require true r s = (done tt, s)
require false r s = (exit r, s)

unfoldable pub require_saying : Bool → Text → ℤ → M (Unit {0})
require_saying true message r s = (done tt, s)
require_saying false message r s = (exit r, record s { error = message })

-- The return code of a step that is the whole body of a function.
abbrev pub code_of : {A : Type 0} → Outcome A → ℤ
code_of (done a) = pos 0
code_of (exit r) = r
