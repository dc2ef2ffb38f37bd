-- ===== src/Gamestream/Http.antt =====
-- libgamestream/http.c: a response body that grows as curl delivers it, and the request that
-- resets it. Curl is a parameter; allocation does not fail.
use moonlight_embedded_for_d.Base.{
  ℕ, ◌+◌, ℤ, Bool, List, [], ◌∷◌, ◌++◌, Text, length, ltb, if◌then◌else◌,
}
use moonlight_embedded_for_d.Gamestream.Errors.{gs_ok, gs_failed}

-- `struct _HTTP_DATA`
pub record HttpData : Type 0 where
  pub memory : Text
  pub size : ℕ

-- What one `curl_easy_perform` does: the chunks that it hands to the write callback, whether it
-- returns CURLE_OK, and else the text of the error.
pub record CurlReply : Type 0 where
  pub success : Bool
  pub chunks : List Text
  pub message : Text

unfoldable pub http_create_data : HttpData
http_create_data = record { memory = []; size = 0 }

-- `_write_curl`
unfoldable pub write_curl : HttpData → Text → HttpData
write_curl mem contents = record {
  memory = mem.memory ++ contents;
  size = mem.size + length contents;
}

unfoldable pub write_chunks : HttpData → List Text → HttpData
unfolding write_curl
write_chunks mem [] = mem
write_chunks mem (c ∷ cs) = write_chunks (write_curl mem c) cs

-- The part of `http_request` before the transfer: a body that is in use is emptied.
unfoldable pub reset_data : HttpData → HttpData
reset_data mem = if ltb 0 mem.size then record { memory = []; size = 0 } else mem

-- `http_request`, with what curl does of its own: the return code and the body.
unfoldable pub http_request : CurlReply → HttpData → ℤ × HttpData
unfolding write_chunks reset_data
http_request reply mem =
    let body = write_chunks (reset_data mem) reply.chunks in
    if reply.success then (gs_ok, body) else (gs_failed, body)
