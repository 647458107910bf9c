-- ===== src/Transport/Reads.antt =====
-- Bounds of one command: the length of its reply, and how often a read is tried again.
use verimark_linux_driver.Transport.Agree.{read_loop_sync_full, cmd-ctrl_cmd_sync}
use verimark_linux_driver.Common.{
  Error, ℕ, zero, suc, ◌+◌, ◌-◌, ◌≤◌, ◌<◌, max, ◌≡◌, ap, ◌∙◌, inl, inr, Bool, true, false, ◌&&◌,
  Option, some, List, [], ◌∷◌, ◌++◌, ltb, if◌then◌else◌, length, replicate, arith, Bool-cases, ok,
  err, lt→ltb, ltb→lt, ltb→ge, length-append, usb_timed_out,
}
use verimark_linux_driver.Framing.{WriteChunk, frame_read_chunk_next}
use verimark_linux_driver.Usb.{Transfer, control_read, Answer, arrived, refused}
use verimark_linux_driver.Ssm.{Follows}
use verimark_linux_driver.Transport.Command.{
  CmdState, write_chunk, read_chunk, cmd, Run, finished, issued, is_timed_out,
}
use verimark_linux_driver.Transport.Sync.{
  write_chunks_sync, read_loop_sync, ctrl_read_sync, ctrl_cmd_sync,
}

abbrev pub FitsOne : Transfer → Answer → Type 0
FitsOne (control_read wvalue want) (arrived bytes) = length bytes ≤ want
FitsOne _ _ = Unit {0}

-- No read is answered with more bytes than it asked for: what a USB control transfer guarantees.
abbrev pub Fits : List Transfer → List Answer → Type 0
Fits (t ∷ ts) (a ∷ as') = FitsOne t a × Fits ts as'
Fits _ _ = Unit {0}

-- One round, with the test of the loop's guard and of the short read decided.
pub read_loop_sync-full :
    (rmax : ℕ) (b : List ℕ) (rest : List Answer) (acc : List ℕ) (first : Bool) (retries : ℕ)
    → length acc < rmax
    → let ask = frame_read_chunk_next (rmax - length acc) first in
      read_loop_sync rmax (arrived b ∷ rest) acc first retries
      ≡ issued (control_read ask.1 ask.0) (
          if ltb (length b) ask.0
          then finished (ok (acc ++ b))
          else read_loop_sync rmax rest (acc ++ b) false 0)
unfolding read_loop_sync
read_loop_sync-full rmax b rest acc first retries h = rw (lt→ltb (length acc) rmax h)

read_loop_sync-refused :
    (rmax : ℕ) (x : Error) (rest : List Answer) (acc : List ℕ) (first : Bool) (retries : ℕ)
    → length acc < rmax
    → let ask = frame_read_chunk_next (rmax - length acc) first in
      read_loop_sync rmax (refused x ∷ rest) acc first retries
      ≡ issued (control_read ask.1 ask.0) (
          if is_timed_out x && ltb retries 25
          then read_loop_sync rmax rest acc first (retries + 1)
          else finished (err x))
unfolding read_loop_sync
read_loop_sync-refused rmax x rest acc first retries h = rw (lt→ltb (length acc) rmax h)

want-le : (remaining : ℕ) (first : Bool) → (frame_read_chunk_next remaining first).0 ≤ remaining
unfolding frame_read_chunk_next
want-le remaining first = omega arith

length-read_loop_sync :
    (rmax : ℕ) (answers : List Answer) (acc : List ℕ) (first : Bool) (retries : ℕ) (reply : List ℕ)
    → length acc ≤ rmax
    → Fits (read_loop_sync rmax answers acc first retries).transfers answers
    → (read_loop_sync rmax answers acc first retries).result ≡ some (ok reply)
    → length reply ≤ rmax
length-read_loop_sync rmax [] acc first retries reply h fits e =
    unfold read_loop_sync in ground arith
length-read_loop_sync rmax (arrived b ∷ rest) acc first retries reply h fits e =
    elim (Bool-cases (ltb (length acc) rmax)) [
      | inr full ↦ ground (
        arith,
        e,
        read_loop_sync_full rmax (arrived b ∷ rest) acc first retries (ltb→ge _ _ full),
      )
      | inl room ↦
          let step = read_loop_sync-full rmax b rest acc first retries (ltb→lt _ _ room) in
          let fits' = rw step at fits in
          let e' = rw step at e in
          let sum : length (acc ++ b) ≤ rmax = omega (
            arith,
            fits'.0,
            want-le (rmax - length acc) first,
            length-append acc b,
            ltb→lt (length acc) rmax room,
          ) in
          elim (Bool-cases (ltb (length b) (frame_read_chunk_next (rmax - length acc) first).0)) [
            | inl short ↦ ground (arith, rw short at e', sum)
            | inr more ↦
                length-read_loop_sync rmax rest (acc ++ b) false 0 reply sum (rw more at (fits'.1))
                  (rw more at e')
          ]
    ]
length-read_loop_sync rmax (refused x ∷ rest) acc first retries reply h fits e =
    elim (Bool-cases (ltb (length acc) rmax)) [
      | inr full ↦ ground (
        arith,
        e,
        read_loop_sync_full rmax (refused x ∷ rest) acc first retries (ltb→ge _ _ full),
      )
      | inl room ↦
          let step = read_loop_sync-refused rmax x rest acc first retries (ltb→lt _ _ room) in
          let fits' = rw step at fits in
          let e' = rw step at e in
          elim (Bool-cases (is_timed_out x && ltb retries 25)) [
            | inl again ↦
                length-read_loop_sync rmax rest acc first (retries + 1) reply h
                  (rw again at (fits'.1)) (rw again at e')
            | inr fatal ↦ ground (arith, rw fatal at e')
          ]
    ]

length-write_chunks_sync :
    (wbuf : List ℕ) (plan : List WriteChunk) (answers : List Answer) (then_read : List Answer → Run)
    (m : ℕ) (reply : List ℕ)
    → ((rest : List Answer)
        → Fits (then_read rest).transfers rest
        → (then_read rest).result ≡ some (ok reply)
        → length reply ≤ m)
    → Fits (write_chunks_sync wbuf plan answers then_read).transfers answers
    → (write_chunks_sync wbuf plan answers then_read).result ≡ some (ok reply)
    → length reply ≤ m
unfolding write_chunks_sync
length-write_chunks_sync wbuf [] answers then_read m reply h fits e = h answers fits e
length-write_chunks_sync wbuf (c ∷ cs) [] then_read m reply h fits e = cc
length-write_chunks_sync wbuf (c ∷ cs) (refused x ∷ rest) then_read m reply h fits e =
    ground (arith, e)
length-write_chunks_sync wbuf (c ∷ cs) (arrived b ∷ rest) then_read m reply h fits e =
    length-write_chunks_sync wbuf cs rest then_read m reply h fits.1 e

-- A reply is never longer than the limit that the caller gave (or 1, where that is 0), as long
-- as the device answers no read with more bytes than it asked for.
pub length-cmd :
    (next : CmdState → Option CmdState)
    → Follows next write_chunk (read_chunk ∷ [])
    → (bytes : List ℕ) (resp_max_len : ℕ) (answers : List Answer) (reply : List ℕ)
    → Fits (cmd next bytes resp_max_len answers).transfers answers
    → (cmd next bytes resp_max_len answers).result ≡ some (ok reply)
    → length reply ≤ max resp_max_len 1
length-cmd next order bytes resp_max_len answers reply fits e =
    let same = cmd-ctrl_cmd_sync next order bytes resp_max_len answers in
    blocking (rw same at fits) (rw same at e)
  where
    blocking :
        Fits (ctrl_cmd_sync bytes resp_max_len answers).transfers answers
        → (ctrl_cmd_sync bytes resp_max_len answers).result ≡ some (ok reply)
        → length reply ≤ max resp_max_len 1
    blocking =
        unfold ctrl_cmd_sync in
        length-write_chunks_sync _ _ answers (ctrl_read_sync resp_max_len) _ reply (λ rest f r.
          unfold ctrl_read_sync in
          length-read_loop_sync (max resp_max_len 1) rest [] true 0 reply (omega arith) f r)

abbrev pub timeouts : ℕ → List Answer
timeouts k = replicate k (refused usb_timed_out)

read_loop_sync-timeouts :
    (k rmax : ℕ) (rest : List Answer) (acc : List ℕ) (first : Bool) (retries : ℕ)
    → length acc < rmax
    → retries + k ≤ 25
    → (read_loop_sync rmax (timeouts k ++ rest) acc first retries).result
      ≡ (read_loop_sync rmax rest acc first (retries + k)).result
read_loop_sync-timeouts zero rmax rest acc first retries h fits =
    ap (λ (t : ℕ). (read_loop_sync rmax rest acc first t).result) (omega arith)
read_loop_sync-timeouts (suc k) rmax rest acc first retries h fits =
    rw (read_loop_sync-refused rmax usb_timed_out (timeouts k ++ rest) acc first retries h) (
      rw (lt→ltb retries 25 (omega arith)) (
        read_loop_sync-timeouts k rmax rest acc first (retries + 1) h (omega arith)
        ∙ ap (λ (t : ℕ). (read_loop_sync rmax rest acc first t).result) (omega arith)))

timeouts-add : (m n : ℕ) (r : List Answer) → timeouts (m + n) ++ r ≡ timeouts m ++ (timeouts n ++ r)
timeouts-add zero n r = ap (λ (t : ℕ). timeouts t ++ r) (omega arith)
timeouts-add (suc m) n r =
    let e : suc m + n ≡ suc (m + n) = omega arith in
    rw e (ap (λ t. refused usb_timed_out ∷ t) (timeouts-add m n r))

-- Wherever the read of a reply stands (`acc` has come, and is below the limit), up to 25 time-outs
-- in a row are passed over, if the device then answers.
pub read_loop_sync_resumes :
    (rmax : ℕ) (acc : List ℕ) (first : Bool) (b : List ℕ) (rest : List Answer) (k : ℕ)
    → length acc < rmax
    → k ≤ 25
    → (read_loop_sync rmax (timeouts k ++ (arrived b ∷ rest)) acc first 0).result
      ≡ (read_loop_sync rmax (arrived b ∷ rest) acc first 0).result
read_loop_sync_resumes rmax acc first b rest k h few =
    read_loop_sync-timeouts k rmax (arrived b ∷ rest) acc first 0 h (omega arith)
    ∙ (rw (
      read_loop_sync-full rmax b rest acc first (0 + k) h,
      read_loop_sync-full rmax b rest acc first 0 h,
    ))

-- Wherever the read of a reply stands (`acc` has come, and is below the limit), the 26th time-out
-- in a row fails the command with that time-out, even if the device would answer then.
pub read_loop_sync_gives_up :
    (rmax : ℕ) (acc : List ℕ) (first : Bool) (b : List ℕ) (rest : List Answer) (k : ℕ)
    → length acc < rmax
    → 26 ≤ k
    → (read_loop_sync rmax (timeouts k ++ (arrived b ∷ rest)) acc first 0).result
      ≡ some (err usb_timed_out)
read_loop_sync_gives_up rmax acc first b rest k h many =
    let e : k ≡ 25 + suc (k - 26) = omega arith in
    let more = timeouts (k - 26) ++ (arrived b ∷ rest) in
    rw (e, timeouts-add 25 (suc (k - 26)) (arrived b ∷ rest))
      (read_loop_sync-timeouts 25 rmax (refused usb_timed_out ∷ more) acc first 0 h (omega arith)
        ∙ rw (read_loop_sync-refused rmax usb_timed_out more acc first (0 + 25) h))
