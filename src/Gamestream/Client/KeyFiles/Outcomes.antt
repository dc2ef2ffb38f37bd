-- ===== src/Gamestream/Client/KeyFiles/Outcomes.antt =====
-- What `gs_init` of libgamestream/client.c leaves.
use moonlight_embedded_for_d.Base.{
  ℕ, ◌==◌, leb, ℤ, pos, ◌≤ℤ◌, ◌≡◌, ◌≢◌, refl, sym, ◌∙◌, Bool, true, false, ◌&&◌, Option, none, some,
  List, Text, length, if◌then◌else◌, by_test, arith, Bool-cases, inl, inr,
}
use moonlight_embedded_for_d.Gamestream.Errors.{gs_ok, gs_failed, is_ok}
use moonlight_embedded_for_d.Gamestream.Hex.{bytes_to_hex}
use moonlight_embedded_for_d.Gamestream.Client.{Session, Host}
use moonlight_embedded_for_d.Gamestream.Client.ServerInfo.Facts.{load_server_status_lem}
use moonlight_embedded_for_d.Gamestream.Client.KeyFiles.{
  KeyStore, default_id, items_read, load_unique_id, certificate_of, read_private_key, read_cert,
  load_cert, or_failed, load_keys, fresh_server, gs_init,
}

one_item : (o : Option Text) → (items_read o == 16) ≡ false
unfolding items_read
one_item none = refl
one_item (some content) =
    by_test (λ n. (n == 16) ≡ false) (leb 16 (length content)) (λ e. refl) (λ e. refl)

-- Whatever the file of the unique id holds, `load_unique_id` does not use it: the id is
-- `0123456789ABCDEF` after, and it is written over the file, or the result is GS_FAILED where the
-- file cannot be written.
pub load_unique_id-default :
    (store : KeyStore) (s : Session)
    → load_unique_id store s ≡ (
        if store.unique_writable
        then (gs_ok, record s { unique_id = default_id }, some default_id)
        else (gs_failed, record s { unique_id = default_id }, none))
unfolding load_unique_id
load_unique_id-default store s = rw (one_item store.unique_file) refl

-- What the key directory must hold for `gs_init`; whether the file of the key holds a key does not
-- matter.
unfoldable pub opens : Option (List ℕ) → Bool
opens none = false
opens (some content) = true

unfoldable pub has_certificate : KeyStore → Option (List ℕ) → Bool
unfolding opens
has_certificate store none = false
has_certificate store (some content) = store.is_certificate content && opens store.key_file

unfoldable pub is_usable : KeyStore → Bool
unfolding has_certificate
is_usable store = store.unique_writable && has_certificate store (certificate_of store)

read_private_key-ok :
    (store : KeyStore) (file : Option (List ℕ)) (s : Session)
    → is_ok (read_private_key store file s).0 ≡ opens file
unfolding read_private_key opens
read_private_key-ok store none s = refl
read_private_key-ok store (some content) s = refl

read_cert-ok :
    (store : KeyStore) (file : Option (List ℕ)) (s : Session)
    → is_ok (read_cert store file s).0 ≡ has_certificate store file
unfolding read_cert has_certificate
read_cert-ok store none s = refl
read_cert-ok store (some content) s = elim (Bool-cases (store.is_certificate content)) [
  | inl e ↦
      rw e (read_private_key-ok store store.key_file (record s { cert_hex = bytes_to_hex content }))
  | inr e ↦ rw e refl
]

or_failed-ok : (r : ℤ × Session) → is_ok (or_failed r).0 ≡ is_ok r.0
or_failed-ok (ret, s) = ground arith

load_keys-ok : (store : KeyStore) (s : Session) → is_ok (load_keys store s).0 ≡ is_usable store
unfolding load_keys is_usable load_cert read_cert
load_keys-ok store s =
    rw (load_unique_id-default store s) (elim (Bool-cases store.unique_writable) [
      | inl e ↦ rw e (
          or_failed-ok
            (read_cert store (certificate_of store) (record s { unique_id = default_id }))
          ∙ read_cert-ok store (certificate_of store) (record s { unique_id = default_id }))
      | inr e ↦ rw e refl
    ])

-- When `gs_init` returns GS_OK: the file of the unique id could be written, there was a certificate
-- and the file of the key could be opened, whatever it holds, the HTTPS port is known, and unless unsupported versions are let through the
-- host's major version lies between 3 and 7.
pub gs_init_lem :
    (host : Host) (store : KeyStore) (address : Text) (http_port : ℕ) (unsupported : Bool)
    (s : Session)
    → (gs_init host store address http_port unsupported s).0 ≡ gs_ok
    → let v = (gs_init host store address http_port unsupported s).1.server in
      (is_usable store ≡ true)
      × (v.https_port ≢ 0)
      × (v.unsupported ≡ false
          → (pos 3 ≤ℤ v.server_major_version) × (v.server_major_version ≤ℤ pos 7))
unfolding gs_init
gs_init_lem host store address http_port unsupported s =
    by_test Result (is_ok (load_keys store s).0)
      (λ e ok.
        let (loaded, port, range) = load_server_status_lem host start ok in
        (sym (load_keys-ok store s) ∙ e, port, range))
      (λ e ok. absurd (failed ok))
  where
    start : Session
    start = record (load_keys store s).1 {
      server = fresh_server address http_port unsupported (load_keys store s).1.server;
    }

    Result : ℤ × Session → Type 0
    Result r =
        r.0 ≡ gs_ok
        → (is_usable store ≡ true)
          × (r.1.server.https_port ≢ 0)
          × (r.1.server.unsupported ≡ false
              → (pos 3 ≤ℤ r.1.server.server_major_version)
                × (r.1.server.server_major_version ≤ℤ pos 7))

    failed : gs_failed ≢ gs_ok
    failed e = cc
