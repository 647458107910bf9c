-- ===== src/Device/Safety.antt =====
-- The blocking commands and the pairing have no read outside their buffers.
use verimark_linux_driver.Common.{
  fail_if-ne-fault, ℕ, ◌+◌, ◌-◌, ◌≢◌, Bool, true, false, not, ◌&&◌, max, List, [], ◌∷◌, ◌++◌, ◌==◌,
  Outcome, ok, err, fault, go_on-safe, if_elim, refl, length, ltb, replicate, arith, Bool-cases,
  inl, inr, ltb→ge, ==→eq, read-safe, copy-safe, >>=-safe, fail_if-safe, proto, not_found,
  file_error,
}
use verimark_linux_driver.Usb.{Answer, arrived, refused}
use verimark_linux_driver.Framing.{
  WriteChunk, frame_padded_len, frame_write_chunks, frame_read_chunk_next,
}
use verimark_linux_driver.Transport.Command.{Run, is_timed_out}
use verimark_linux_driver.Transport.Sync.{
  sync_read_max_retries, write_chunks_sync, ctrl_write_sync, read_loop_sync, ctrl_read_sync,
  ctrl_cmd_sync,
}
use verimark_linux_driver.Tls.Cert.{Pairing, pairing_save}
use verimark_linux_driver.Tls.Cert.Safety.{pairing_load-safe}
use verimark_linux_driver.Tls.Crypto.{Crypto}
use verimark_linux_driver.Tls.Pairing.{pairing_do}
use verimark_linux_driver.Tls.Pairing.Safety.{pairing_do-safe}
use verimark_linux_driver.Tls.Pairing.Files.{
  Files, pairing_base_dir, pairing_path, pairing_save_file, pairing_load_file,
}
use verimark_linux_driver.Device.Open.{on_files, pair_and_save, loaded, load_or_pair}
use verimark_linux_driver.Device.{World, Bus}
use verimark_linux_driver.Device.Commands.{
  sync_result, next_cmd, sync_cmd, sid_of, resolve_sid_sync, tls_io_sync, pair_io_sync,
}

abbrev IsAnswered : Run → Type 0
IsAnswered r = sync_result r.result ≢ fault

read_loop_sync-safe :
    (rmax : ℕ) (answers : List Answer) (acc : List ℕ) (first : Bool) (retries : ℕ)
    → IsAnswered (read_loop_sync rmax answers acc first retries)
unfolding read_loop_sync sync_result
read_loop_sync-safe rmax [] acc first retries =
    if_elim IsAnswered (ltb (length acc) rmax) (λ _ e. cc) (λ _ e. cc)
read_loop_sync-safe rmax (arrived bytes ∷ rest) acc first retries =
    if_elim IsAnswered (ltb (length acc) rmax)
      (λ _.
        if_elim IsAnswered (ltb (length bytes) (frame_read_chunk_next (rmax - length acc) first).0)
          (λ _ e. cc) (λ _. read_loop_sync-safe rmax rest (acc ++ bytes) false 0))
      (λ _ e. cc)
read_loop_sync-safe rmax (refused x ∷ rest) acc first retries =
    if_elim IsAnswered (ltb (length acc) rmax)
      (λ _.
        if_elim IsAnswered (is_timed_out x && ltb retries sync_read_max_retries)
          (λ _. read_loop_sync-safe rmax rest acc first (retries + 1)) (λ _ e. cc))
      (λ _ e. cc)

write_chunks_sync-safe :
    (wbuf : List ℕ) (chunks : List WriteChunk) (answers : List Answer) (behind : List Answer → Run)
    → ((rest : List Answer) → IsAnswered (behind rest))
    → IsAnswered (write_chunks_sync wbuf chunks answers behind)
unfolding write_chunks_sync sync_result
write_chunks_sync-safe wbuf [] answers behind h = h answers
write_chunks_sync-safe wbuf (c ∷ cs) [] behind h = λ e. cc
write_chunks_sync-safe wbuf (c ∷ cs) (refused x ∷ rest) behind h = λ e. cc
write_chunks_sync-safe wbuf (c ∷ cs) (arrived _ ∷ rest) behind h =
    write_chunks_sync-safe wbuf cs rest behind h

ctrl_cmd_sync-safe :
    (bytes : List ℕ) (resp_max : ℕ) (answers : List Answer)
    → IsAnswered (ctrl_cmd_sync bytes resp_max answers)
unfolding ctrl_cmd_sync ctrl_write_sync ctrl_read_sync
ctrl_cmd_sync-safe bytes resp_max answers =
    write_chunks_sync-safe (bytes ++ replicate (frame_padded_len (length bytes) - length bytes) 0)
      (frame_write_chunks (length bytes)) answers (ctrl_read_sync resp_max)
      λ rest. read_loop_sync-safe (max resp_max 1) rest [] true 0

next_cmd-safe :
    (bytes : List ℕ) (resp_max : ℕ) (scripts : List (List Answer))
    → (next_cmd bytes resp_max scripts).1 ≢ fault
unfolding next_cmd
next_cmd-safe bytes resp_max [] = ctrl_cmd_sync-safe bytes resp_max []
next_cmd-safe bytes resp_max (answers ∷ rest) = ctrl_cmd_sync-safe bytes resp_max answers

sid_of-safe : (resp : List ℕ) → sid_of resp ≢ fault
unfolding sid_of
sid_of-safe resp = elim (Bool-cases (ltb (length resp) 38)) [
  | inl short ↦ rw short (λ e. cc)
  | inr long ↦
      let h = ltb→ge (length resp) 38 long in
      rw long (
        read-safe resp 0 _ (omega (arith, h)) λ lo. read-safe resp 1 _ (omega (arith, h)) λ hi.
          fail_if-safe (not (lo == 0x00 && hi == 0x00)) proto _
            λ _. copy-safe resp 18 6 _ (omega (arith, h)) λ id e. cc)
]

module _ {F : Type 0} where
  pub sync_cmd-safe :
      (bytes : List ℕ) (resp_max : ℕ) (w : World F) → (sync_cmd bytes resp_max w).1 ≢ fault
  unfolding sync_cmd
  sync_cmd-safe bytes resp_max w = next_cmd-safe bytes resp_max w.scripts

  pub tls_io_sync-safe : (out : List ℕ) (w : World F) → (tls_io_sync out w).1 ≢ fault
  unfolding tls_io_sync
  tls_io_sync-safe out w = sync_cmd-safe (0x44 ∷ 0x00 ∷ 0x00 ∷ 0x00 ∷ out) 0x100 w

  pub pair_io_sync-safe : (out : List ℕ) (w : World F) → (pair_io_sync out w).1 ≢ fault
  unfolding pair_io_sync
  pair_io_sync-safe out w = sync_cmd-safe out 802 w

  pub resolve_sid_sync-safe : (w : World F) → (resolve_sid_sync w).1 ≢ fault
  unfolding resolve_sid_sync
  resolve_sid_sync-safe w =
      go_on-safe (sync_cmd (0x01 ∷ []) 256 w) _ (sync_cmd-safe (0x01 ∷ []) 256 w)
        λ resp _. sid_of-safe resp

-- The calls of the parameters answer or fail.
pub record IsFaultless {F : Type 0} (files : Files F) (bus : Bus) : Type 0 where
  pub no_fault_interfaces : bus.interfaces ≢ fault
  pub no_fault_claim : bus.claim ≢ fault
  pub no_fault_mkdir : (dir : List ℕ) (f : F) → (files.mkdir_with_parents dir f).1 ≢ fault
  pub no_fault_open : (path : List ℕ) (f : F) → (files.open_truncated path f).1 ≢ fault
  pub no_fault_write : (path bytes : List ℕ) (f : F) → (files.write path bytes f).1 ≢ fault
  pub no_fault_contents : (path : List ℕ) (f : F) → files.get_contents path f ≢ fault

module _ {F : Type 0} (crypto : Crypto) (files : Files F) (bus : Bus)
    (h : IsFaultless files bus) where
  pairing_save_file-safe :
      (pd : Pairing) (sid : List ℕ) (f : F) → (pairing_save_file files pd sid f).1 ≢ fault
  unfolding pairing_save_file
  pairing_save_file-safe pd sid f =
      let dir : F × Outcome (Unit {0}) = files.mkdir_with_parents (pairing_base_dir files) f in
      go_on-safe dir _ (h.no_fault_mkdir (pairing_base_dir files) f) λ _ _.
        let opened : F × Outcome (Unit {0}) = files.open_truncated (pairing_path files sid) dir.0 in
        go_on-safe opened _ (h.no_fault_open (pairing_path files sid) dir.0) λ _ _.
          go_on-safe (files.write (pairing_path files sid) (pairing_save pd) opened.0) _
            (h.no_fault_write (pairing_path files sid) (pairing_save pd) opened.0)
            λ n _. fail_if-ne-fault (not (n == 868)) file_error

  pairing_load_file-safe : (sid : List ℕ) (f : F) → pairing_load_file files sid f ≢ fault
  unfolding pairing_load_file
  pairing_load_file-safe sid f =
      >>=-safe (files.get_contents (pairing_path files sid) f) _
        (h.no_fault_contents (pairing_path files sid) f)
        λ contents. elim (Bool-cases (length contents == 868)) [
          | inr other ↦ rw other (λ e. cc)
          | inl whole ↦ rw whole (pairing_load-safe contents (==→eq (length contents) 868 whole))
        ]

  pair_and_save-safe :
      (sid : List ℕ) (w : World F) → (pair_and_save crypto files bus sid w).1 ≢ fault
  unfolding pair_and_save
  pair_and_save-safe sid w =
      let made : World F × Outcome Pairing =
        pairing_do crypto pair_io_sync bus.generated bus.signing w in
      go_on-safe made _
        (pairing_do-safe crypto pair_io_sync bus.generated bus.signing w
          (λ request v. pair_io_sync-safe request v))
        λ pd _.
          go_on-safe (on_files (pairing_save_file files pd sid) made.0) _
            (pairing_save_file-safe pd sid made.0.files) λ _ _ e. cc

  loaded-safe :
      (sid : List ℕ) (found : Outcome Pairing) (w : World F)
      → found ≢ fault
      → (loaded crypto files bus sid found w).1 ≢ fault
  unfolding loaded
  loaded-safe sid (ok pd) w k = λ e. cc
  loaded-safe sid (err not_found) w k = pair_and_save-safe sid w
  loaded-safe sid fault w k = absurd (k refl)
  loaded-safe sid (err x) w k = λ e. cc

  pub load_or_pair-safe :
      (sid : List ℕ) (w : World F) → (load_or_pair crypto files bus sid w).1 ≢ fault
  unfolding load_or_pair
  load_or_pair-safe sid w =
      loaded-safe sid (pairing_load_file files sid w.files) w (pairing_load_file-safe sid w.files)
