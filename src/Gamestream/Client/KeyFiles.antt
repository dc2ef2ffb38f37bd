-- ===== src/Gamestream/Client/KeyFiles.antt =====
-- The key directory and `gs_init` in libgamestream/client.c.
pub mod Outcomes
use moonlight_embedded_for_d.Base.{
  ℕ, ◌==◌, leb, ℤ, pos, negsuc, Bool, true, false, not, ◌||◌, Option, none, some, List, [], ◌∷◌,
  ◌++◌, Text, chars, length, take, if◌then◌else◌,
}
use moonlight_embedded_for_d.Gamestream.Errors.{gs_ok, gs_failed, is_ok}
use moonlight_embedded_for_d.Gamestream.Hex.{bytes_to_hex}
use moonlight_embedded_for_d.Gamestream.Client.{Server, Session, Host}
use moonlight_embedded_for_d.Gamestream.Client.ServerInfo.{load_server_status}

-- What the file system and OpenSSL answer: whether a directory is there after `mkdir`; the file of
-- the unique id, if it can be read, and whether it can be written; the file of the certificate, before
-- and after `mkcert_save`; whether it holds a certificate; the file of the
-- key, if it opens, and what PEM_read_PrivateKey makes of it.
pub record KeyStore : Type 0 where
  pub made : Text → Bool
  pub unique_file : Option Text
  pub unique_writable : Bool
  pub certificate_file : Option (List ℕ)
  pub generated_file : Option (List ℕ)
  pub is_certificate : List ℕ → Bool
  pub key_file : Option (List ℕ)
  pub parse_key : List ℕ → Option (List ℕ)

-- The directories that `mkdirtree` makes, one after the other: the path up to each `/` but the first
-- character, and the whole.
unfoldable pub path_ends : Text → Text → List Text
path_ends before [] = before ∷ []
path_ends before (c ∷ s) =
    let rest = path_ends (before ++ (c ∷ [])) s in if c == b'/' then before ∷ rest else rest

unfoldable pub tree : Text → List Text
unfolding path_ends
tree [] = []
tree (c ∷ s) = path_ends (c ∷ []) s

unfoldable pub make_all : (Text → Bool) → List Text → ℤ
make_all made [] = pos 0
make_all made (d ∷ ds) = let rest = make_all made ds in if made d then rest else negsuc 0

-- PATH_MAX is 4096.
unfoldable pub mkdirtree : KeyStore → Text → ℤ
unfolding tree make_all
mkdirtree store directory = make_all store.made (tree (take 4095 directory))

abbrev pub default_id : Text
default_id = chars "0123456789ABCDEF"

-- `fread` of one item of 16 bytes: how many items it read.
unfoldable pub items_read : Option Text → ℕ
items_read none = 0
items_read (some content) = if leb 16 (length content) then 1 else 0

abbrev pub first_id : Option Text → Text
first_id none = []
first_id (some content) = take 16 content

-- The result, the globals after, and what the file holds then if it was written.
unfoldable pub load_unique_id : KeyStore → Session → ℤ × Session × Option Text
unfolding items_read
load_unique_id store s =
    if not (items_read store.unique_file == 16)
    then if store.unique_writable
      then (gs_ok, record s { unique_id = default_id }, some default_id)
      else (gs_failed, record s { unique_id = default_id }, none)
    else (gs_ok, record s { unique_id = first_id store.unique_file }, none)

-- The file of the certificate, which is made where there is none.
abbrev pub certificate_of : KeyStore → Option (List ℕ)
certificate_of store = elim store.certificate_file [
  | none ↦ store.generated_file
  | some content ↦ some content
]

-- `PEM_read_PrivateKey(fd, &privateKey, ...)`, whose result is not looked at: where the file holds no
-- key, `privateKey` stays as it was.
unfoldable pub read_private_key : KeyStore → Option (List ℕ) → Session → ℤ × Session
read_private_key store none s =
    (gs_failed, record s { error = chars "Error loading key into memory" })
read_private_key store (some content) s = (
  gs_ok,
  record s {
    private_key = elim (store.parse_key content) [ none ↦ s.private_key | some key ↦ some key ];
  },
)

-- `cert_hex` has 8192 bytes; a certificate that overruns them is written whole here.
unfoldable pub read_cert : KeyStore → Option (List ℕ) → Session → ℤ × Session
unfolding bytes_to_hex read_private_key
read_cert store none s = (gs_failed, record s { error = chars "Can't open certificate file" })
read_cert store (some content) s =
    if store.is_certificate content
    then read_private_key store store.key_file (record s { cert_hex = bytes_to_hex content })
    else (gs_failed, record s { error = chars "Error loading cert into memory" })

unfoldable pub load_cert : KeyStore → Session → ℤ × Session
load_cert store s = read_cert store (certificate_of store) s

-- The server that `gs_init` starts from. `LiInitializeServerInformation` clears `serverInfo`.
unfoldable pub fresh_server : Text → ℕ → Bool → Server → Server
fresh_server address http_port unsupported v = record v {
  address = address;
  app_version = none;
  gfe_version = none;
  rtsp_session_url = none;
  codec_mode_support = pos 0;
  unsupported = unsupported;
  http_port = if http_port == 0 then 47989 else http_port;
  https_port = 0;
}

-- `if (load_cert(keyDirectory)) return GS_FAILED`
abbrev pub or_failed : ℤ × Session → ℤ × Session
or_failed (ret, s) = (if is_ok ret then gs_ok else gs_failed, s)

-- The key files: the id, then the certificate.
unfoldable pub load_keys : KeyStore → Session → ℤ × Session
load_keys store s =
    let (ret, t, written) = load_unique_id store s in
    if is_ok ret then or_failed (load_cert store t) else (gs_failed, t)

-- The result of `mkdirtree` is not looked at.
unfoldable pub gs_init : Host → KeyStore → Text → ℕ → Bool → Session → ℤ × Session
gs_init host store address http_port unsupported s =
    let (ret, t) = load_keys store s in
    if is_ok ret
    then load_server_status host
        (record t { server = fresh_server address http_port unsupported t.server })
    else (gs_failed, t)
