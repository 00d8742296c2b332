-- ===== src/ResponseWriter/Kept.antt =====
-- What `writeTo` leaves alone: the headers of the response, their serialised form and the keep-alive flag.
use barcelona.Base.{◌≡◌, refl, ◌∙◌, inl, inr, Bool-cases, sym}
use barcelona.Http.{ResponseBody, bytes, file}
use barcelona.Io.{Sinker}
use barcelona.ResponseWriter.{
  State, sending_headers, sending_body, finished, Writer, is_finished, is_keep_alive, send_headers,
  send_body, send_body_of, send_bytes, send_file, body_round, headers_round, write_to_in, write_to,
}

abbrev pub Kept : Writer → Writer → Type 0
Kept w v =
    (v.response.headers ≡ w.response.headers)
    × (v.keep_alive ≡ w.keep_alive)
    × (v.serialized_headers ≡ w.serialized_headers)

module _ {S : Type 0} (k : Sinker S) where
  send_body_of-Kept : (b : ResponseBody) (w : Writer) (s : S) → Kept w (send_body_of k b w s).writer
  unfolding send_body_of send_bytes send_file
  send_body_of-Kept (bytes x) w s = (refl, refl, refl)
  send_body_of-Kept (file f) w s = (refl, refl, refl)

  body_round-Kept : (w : Writer) (s : S) → Kept w (body_round k w s).writer
  unfolding body_round send_body
  body_round-Kept w s =
      elim (Bool-cases (is_finished (send_body_of k w.response.body w s).result)) [
        | inl e ↦ rw (e, body_round) (send_body_of-Kept w.response.body w s)
        | inr e ↦ rw (e, body_round) (send_body_of-Kept w.response.body w s)
      ]

  headers_round-Kept : (w : Writer) (s : S) → Kept w (headers_round k w s).writer
  unfolding headers_round send_headers
  headers_round-Kept w s =
      let x = send_headers k w s in
      elim (Bool-cases (is_finished x.result)) [
        | inl e ↦
            rw (e, headers_round)
              (body_round-Kept (record (x.writer) { state = sending_body }) x.sink)
        | inr e ↦ rw (e, headers_round) (refl, refl, refl)
      ]

  write_to_in-Kept : (st : State) (w : Writer) (s : S) → Kept w (write_to_in k st w s).writer
  unfolding write_to_in
  write_to_in-Kept sending_headers w s = headers_round-Kept w s
  write_to_in-Kept sending_body w s = body_round-Kept w s
  write_to_in-Kept finished w s = (refl, refl, refl)

  pub write_to-Kept : (w : Writer) (s : S) → Kept w (write_to k w s).writer
  unfolding write_to
  write_to-Kept w s = write_to_in-Kept w.state w s

  -- The answer to `isKeepAlive` does not change while the response is written.
  pub write_to-is_keep_alive :
      (w : Writer) (s : S)
      → is_keep_alive w ≡ w.keep_alive
      → is_keep_alive (write_to k w s).writer ≡ (write_to k w s).writer.keep_alive
  unfolding is_keep_alive
  write_to-is_keep_alive w s h =
      let (e, f, g) = write_to-Kept w s in rw (e, is_keep_alive) (h ∙ sym f)
