-- ===== src/Tls/Pairing/Files.antt =====
-- driver/verimark-pairing.c: the file of a sensor's pairing. The file system is a parameter.
use verimark_linux_driver.Common.{
  ℕ, ◌≡◌, true, not, Option, none, some, List, [], ◌∷◌, ◌++◌, ◌==◌, length, Outcome, ok, ◌>>=◌,
  ◌>>◌, fail_if, crypto_invalid_data, file_error, ap, sym, ◌∙◌, arith, ==→eq, Action, go_on,
  go_on-eq-ok,
}
use verimark_linux_driver.Tls.Cert.{Pairing, pairing_load, pairing_save}
use verimark_linux_driver.Tls.Cert.RoundTrip.{IsPairing, pairing_load-pairing_save}

-- What the code uses of GLib and of the system on files, in a world that keeps them: the errors are those of
-- G_FILE_ERROR. What was written as a whole into a file that was opened with O_TRUNC is the
-- contents of the file.
pub record Files {ℓ} (W : Type ℓ) : Type ℓ where
  pub getenv : Option (List ℕ)  -- g_getenv ("VERIMARK_PDATA_DIR")
  pub build_filename : (dir name : List ℕ) → List ℕ
  pub mkdir_with_parents : (dir : List ℕ) → Action W (Unit {0})
  pub open_truncated : (path : List ℕ) → Action W (Unit {0})
  pub write : (path bytes : List ℕ) → Action W ℕ
  pub get_contents : (path : List ℕ) → W → Outcome (List ℕ)
  pub get_contents-write :
      (path bytes : List ℕ) (w : W)
      → (open_truncated path w).1 ≡ ok tt
      → (write path bytes (open_truncated path w).0).1 ≡ ok (length bytes)
      → get_contents path (write path bytes (open_truncated path w).0).0 ≡ ok bytes

-- VERIMARK_PDATA_DEFAULT_DIR, "/var/lib/fprint/verimark"
abbrev pub pdata_default_dir : List ℕ
pdata_default_dir =
    0x2f ∷ 0x76 ∷ 0x61 ∷ 0x72 ∷ 0x2f ∷ 0x6c ∷ 0x69 ∷ 0x62 ∷ 0x2f ∷ 0x66 ∷ 0x70 ∷ 0x72 ∷ 0x69 ∷ 0x6e
    ∷ 0x74 ∷ 0x2f ∷ 0x76 ∷ 0x65 ∷ 0x72 ∷ 0x69 ∷ 0x6d ∷ 0x61 ∷ 0x72 ∷ 0x6b ∷ []

module _ {ℓ} {W : Type ℓ} (files : Files W) where
  unfoldable pub pairing_base_dir : List ℕ
  pairing_base_dir = elim files.getenv [ none ↦ pdata_default_dir | some dir ↦ dir ]

  -- verimark_pairing_path; the name is `sid` with ".pdata" behind it.
  unfoldable pub pairing_path : (sid : List ℕ) → List ℕ
  unfolding pairing_base_dir
  pairing_path sid =
      files.build_filename pairing_base_dir (sid ++ (0x2e ∷ 0x70 ∷ 0x64 ∷ 0x61 ∷ 0x74 ∷ 0x61 ∷ []))

  -- verimark_pairing_save_file; a short write is an error too.
  unfoldable pub pairing_save_file : Pairing → (sid : List ℕ) → Action W (Unit {0})
  unfolding pairing_path pairing_base_dir
  pairing_save_file pd sid w = go_on (files.mkdir_with_parents pairing_base_dir w) λ _ w1.
      go_on (files.open_truncated (pairing_path sid) w1) λ _ w2.
        go_on (files.write (pairing_path sid) (pairing_save pd) w2)
          λ written w3. (w3, fail_if (not (written == 868)) file_error)

  -- verimark_pairing_load_file
  unfoldable pub pairing_load_file : (sid : List ℕ) → W → Outcome Pairing
  unfolding pairing_path
  pairing_load_file sid w = do
    contents ← files.get_contents (pairing_path sid) w
    fail_if (not (length contents == 868)) crypto_invalid_data
    pairing_load contents

  -- Pairing data that was saved to a sensor's file is loaded from it again, if it has the sizes of its
  -- arrays.
  pub pairing_load_file-pairing_save_file :
      (pd : Pairing) (sid : List ℕ) (w : W)
      → IsPairing pd
      → (pairing_save_file pd sid w).1 ≡ ok tt
      → pairing_load_file sid (pairing_save_file pd sid w).0 ≡ ok pd
  unfolding pairing_save_file pairing_load_file
  pairing_load_file-pairing_save_file pd sid w h saved =
      let path : List ℕ = pairing_path sid in
      let bytes : List ℕ = pairing_save pd in
      let (size, loads) = pairing_load-pairing_save pd h in
      let dir : W × Outcome (Unit {0}) = files.mkdir_with_parents pairing_base_dir w in
      let (u, made, e1) = go_on-eq-ok dir _ saved in
      let w1 : W = dir.0 in
      let (v, opened, e2) =
        go_on-eq-ok (files.open_truncated path w1) _
          (ap (λ (r : W × Outcome (Unit {0})). r.1) (sym e1) ∙ saved) in
      let w2 : W = (files.open_truncated path w1).0 in
      let saved2 =
        ap (λ (r : W × Outcome (Unit {0})). r.1) (sym e2)
        ∙ (ap (λ (r : W × Outcome (Unit {0})). r.1) (sym e1) ∙ saved) in
      let (n, written, e3) = go_on-eq-ok (files.write path bytes w2) _ saved2 in
      let whole : fail_if (not (n == 868)) file_error ≡ ok tt =
        ap (λ (r : W × Outcome (Unit {0})). r.1) (sym e3) ∙ saved2 in
      let n_is : n ≡ length bytes = omega (arith, ==→eq n 868 (ground (arith, whole)), size) in
      let read_back = files.get_contents-write path bytes w1 opened (written ∙ ap ok n_is) in
      let world : (pairing_save_file pd sid w).0 ≡ (files.write path bytes w2).0 =
        ap (λ (r : W × Outcome (Unit {0})). r.0) (e1 ∙ (e2 ∙ e3)) in
      let right_size : (length bytes == 868) ≡ true = ground (arith, size) in
      rw (world, read_back, right_size) loads
