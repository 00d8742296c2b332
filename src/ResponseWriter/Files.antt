-- ===== src/ResponseWriter/Files.antt =====
-- A file body of which a first part has been sent.
use barcelona.Base.{
  ℕ, zero, suc, ◌+◌, ◌≤◌, ◌<◌, ◌≡◌, refl, Bool, true, false, arith, ◌⊎◌, inl, inr, Bool-cases,
}
use barcelona.Http.{FileBody, file}
use barcelona.Io.{Sinker}
use barcelona.Io.TcpSinker.{Returned, failed, Kernel, tcp_sendfile, tcp_sinker}
use barcelona.ResponseWriter.{
  State, sending_headers, sending_body, finished, Writer, Written, is_finished, send_body,
  body_round, write_to_in, write_to,
}

-- A sink whose `sendfile` reads forward and, asked for some bytes, says Finished only if the file
-- has them behind the offset.
pub record ReadsFiles {S : Type 0} (k : Sinker S) (size_of : ℕ → ℕ) : Type 0 where
  pub forward : (s : S) (fd offset count : ℕ) → offset ≤ (k.sendfile s fd offset count).offset
  pub within :
      (s : S) (fd offset count : ℕ)
      → 0 < count
      → is_finished (k.sendfile s fd offset count).result ≡ true
      → offset + count ≤ size_of fd

-- The writer is in a file that is not empty, behind the first byte.
pub record InFile (size_of : ℕ → ℕ) (f : FileBody) (w : Writer) : Type 0 where
  pub state : w.state ≡ sending_body
  pub body : w.response.body ≡ file f
  pub size : f.size ≡ size_of f.fd
  pub begun : 0 < f.offset
  pub filled : 0 < f.size

-- The writer after so many calls of `writeTo`.
unfoldable pub calls : {S : Type 0} → Sinker S → ℕ → Writer → S → Writer × S
calls k zero w s = (w, s)
calls k (suc n) w s = let x = write_to k w s in calls k n x.writer x.sink

module _ {S : Type 0} (k : Sinker S) (size_of : ℕ → ℕ) (reads : ReadsFiles k size_of) where
  abbrev Stays : Written S → Type 0
  Stays x = (g : FileBody) × InFile size_of g x.writer × (is_finished x.result ≡ false)

  body_round-Stays :
      (f : FileBody) (w : Writer) (s : S) → InFile size_of f w → Stays (body_round k w s)
  unfolding body_round send_body
  body_round-Stays f w s i =
      let x = k.sendfile s f.fd f.offset f.size in
      let unfinished : is_finished x.result ≡ false = elim (Bool-cases (is_finished x.result)) [
        | inl e ↦
            absurd (omega (arith, reads.within s f.fd f.offset f.size i.filled e, i.size, i.begun))
        | inr e ↦ e
      ] in
      rw (i.body, send_body)
        (rw unfinished (
          record f { offset = x.offset },
          record {
            state = i.state;
            body = refl;
            size = i.size;
            begun = omega (arith, reads.forward s f.fd f.offset f.size, i.begun);
            filled = i.filled;
          },
          unfinished,
        ))

  write_to_in-Stays :
      (st : State) (f : FileBody) (w : Writer) (s : S)
      → w.state ≡ st
      → InFile size_of f w
      → Stays (write_to_in k st w s)
  unfolding write_to_in
  write_to_in-Stays sending_headers f w s e i = cc (e, i.state)
  write_to_in-Stays sending_body f w s e i = body_round-Stays f w s i
  write_to_in-Stays finished f w s e i = cc (e, i.state)

  write_to-Stays : (f : FileBody) (w : Writer) (s : S) → InFile size_of f w → Stays (write_to k w s)
  unfolding write_to
  write_to-Stays f w s i = write_to_in-Stays w.state f w s refl i

  unfinished :
      (n : ℕ) (f : FileBody) (w : Writer) (s : S)
      → InFile size_of f w
      → is_finished (write_to k (calls k n w s).0 (calls k n w s).1).result ≡ false
  unfolding calls
  unfinished zero f w s i = (write_to-Stays f w s i).2
  unfinished (suc n) f w s i = let (g, j, e) = write_to-Stays f w s i in unfinished n g _ _ j

-- sendfile(2): the offset moves forward, and no byte behind the end of the file is counted.
pub record IsSendfile {K : Type 0} (sys : Kernel K) (size_of : ℕ → ℕ) : Type 0 where
  pub forward : (k : K) (fd offset len : ℕ) → offset ≤ (sys.sendfile k fd offset len).offset
  pub in_file :
      (k : K) (fd offset len n : ℕ)
      → (sys.sendfile k fd offset len).result ≡ Returned.count n
      → 0 < n
      → offset + n ≤ size_of fd

Returned-cases : (r : Returned) → ((e : ℕ) × (r ≡ failed e)) ⊎ ((n : ℕ) × (r ≡ Returned.count n))
Returned-cases (failed e) = inl (e, refl)
Returned-cases (Returned.count n) = inr (n, refl)

module _ {K : Type 0} (sys : Kernel K) (size_of : ℕ → ℕ) (laws : IsSendfile sys size_of) where
  tcp_sendfile-forward :
      (fd_set : Bool) (k : K) (fd offset len : ℕ)
      → offset ≤ (tcp_sendfile sys fd_set k fd offset len).offset
  unfolding tcp_sendfile
  tcp_sendfile-forward false k fd offset len = omega arith
  tcp_sendfile-forward true k fd offset len =
      elim (Returned-cases (sys.sendfile k fd offset len).result) [
        | inl (e, f) ↦ ground (arith, laws.forward k fd offset len)
        | inr (n, f) ↦ ground (arith, laws.forward k fd offset len)
      ]

  tcp_sendfile-within :
      (fd_set : Bool) (k : K) (fd offset len : ℕ)
      → 0 < len
      → is_finished (tcp_sendfile sys fd_set k fd offset len).result ≡ true
      → offset + len ≤ size_of fd
  unfolding tcp_sendfile
  tcp_sendfile-within false k fd offset len some_bytes e = cc
  tcp_sendfile-within true k fd offset len some_bytes e =
      elim (Returned-cases (sys.sendfile k fd offset len).result) [
        | inl (x, f) ↦ ground arith
        | inr (n, f) ↦ ground (arith, laws.in_file k fd offset len n f)
      ]

  -- Over a kernel whose sendfile(2) moves the offset forward and counts no byte behind the end of the
  -- file: with TcpSinker, the response of a file that is not empty never finishes once its offset has
  -- moved. `sendBody` asks for the size of the whole file each time, and fewer bytes than that are
  -- left behind the offset; so no later call of `writeTo`, however many are made, returns Finished.
  pub file_never_finishes :
      (fd_set : Bool) (n : ℕ) (f : FileBody) (w : Writer) (k : K)
      → InFile size_of f w
      → let (w', k') = calls (tcp_sinker sys fd_set) n w k in
        is_finished (write_to (tcp_sinker sys fd_set) w' k').result ≡ false
  unfolding tcp_sinker
  file_never_finishes fd_set n f w k i =
      unfinished (tcp_sinker sys fd_set) size_of
        (record { forward = tcp_sendfile-forward fd_set; within = tcp_sendfile-within fd_set }) n f
        w k i
