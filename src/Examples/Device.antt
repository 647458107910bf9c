-- ===== src/Examples/Device.antt =====
-- The properties of opening the device at concrete inputs.
use verimark_linux_driver.Common.{
  ℕ, ◌≡◌, ◌≢◌, refl, false, Option, none, some, List, [], ◌∷◌, ◌++◌, length, ok, err, fault,
  replicate, not_found, read, copy,
}
use verimark_linux_driver.Usb.{Answer, arrived}
use verimark_linux_driver.Framing.{
  frame_padded_len, write_loop, frame_read_chunk_next, frame_write_chunks,
}
use verimark_linux_driver.Transport.Sync.{
  write_chunks_sync, ctrl_write_sync, read_loop_sync, ctrl_read_sync, ctrl_cmd_sync,
}
use verimark_linux_driver.Tls.Cert.{
  Pairing, reversed, all_zero, le_field_to_be32, be32_to_le_field, cert_parse, cert_serialize,
  cert_signbytes, pairing_load, pairing_save,
}
use verimark_linux_driver.Tls.Prf.{prf, prf_loop}
use verimark_linux_driver.Tls.Crypto.{pub_from_priv, ecdsa_sign}
use verimark_linux_driver.Tls.Pairing.{
  KeyPair, pairing_do, ec_keygen, build_host_cert, hs_key_scalar, paired, is_paired_reply,
}
use verimark_linux_driver.Tls.Pairing.Files.{
  Files, pairing_base_dir, pairing_path, pairing_save_file, pairing_load_file,
}
use verimark_linux_driver.Device.{Device, World, Bus}
use verimark_linux_driver.Device.Commands.{sync_result, next_cmd, sync_cmd, pair_io_sync}
use verimark_linux_driver.Device.Open.{dev_open, load_or_pair, loaded, pair_and_save}
use verimark_linux_driver.Device.Safety.{IsFaultless}
use verimark_linux_driver.Device.Ends.{Ends, dev_open-Ends}
use verimark_linux_driver.Device.Again.{load_or_pair_again}
use verimark_linux_driver.Examples.Channel.{toy, draws}
use verimark_linux_driver.Examples.Tls.{host, sensor}

-- A file system of one file.
abbrev one_file : Files (Option (List ℕ))
one_file = record {
  getenv = none;
  build_filename = λ dir name. dir ++ 0x2f ∷ name;
  mkdir_with_parents = λ dir f. (f, ok tt);
  open_truncated = λ path f. (some [], ok tt);
  write = λ path bytes f. (some bytes, ok (length bytes));
  get_contents = λ path f. elim f [ none ↦ err not_found | some bytes ↦ ok bytes ];
  get_contents-write = λ path bytes w opened written. refl;
}

abbrev key_pair : KeyPair
key_pair = record { priv = replicate 32 5; pub_x = replicate 32 2; pub_y = replicate 32 3 }

abbrev bus : Bus
bus = record {
  interfaces =
      ok
        (record { number = 0; endpoints = [] } ∷ record { number = 1; endpoints = 0x83 ∷ [] } ∷ []);
  claim = ok tt;
  release = ok tt;
  generated = some key_pair;
  signing = [];
  now = 1000;
  random = replicate 28 3;
  draws = draws;
  close_nonce = replicate 8 4;
}

-- The command of 401 bytes is taken, and the sensor's reply of 802 bytes comes.
abbrev pair_script : List Answer
pair_script =
    arrived [] ∷ arrived (0x00 ∷ 0x00 ∷ (cert_serialize host ++ cert_serialize sensor)) ∷ []

abbrev unpaired : World (Option (List ℕ))
unpaired = record {
  scripts = pair_script ∷ [];
  interrupts = arrived (0x01 ∷ []) ∷ [];
  sent = [];
  claimed = false;
  files = none;
}

abbrev sid : List ℕ
sid = 0x30 ∷ 0x31 ∷ []

abbrev pairing : Pairing
pairing = record { priv_scalar = replicate 32 5; host_cert = host; sensor_cert = sensor }

first_pairing : (load_or_pair toy one_file bus sid unpaired).1 ≡ ok pairing
unfolding load_or_pair loaded pair_and_save pairing_do ec_keygen build_host_cert hs_key_scalar
    paired is_paired_reply pairing_save_file pairing_load_file pairing_base_dir pairing_path
    sync_result next_cmd sync_cmd pair_io_sync prf prf_loop pub_from_priv ecdsa_sign reversed
    all_zero le_field_to_be32 be32_to_le_field cert_parse cert_serialize cert_signbytes pairing_load
    pairing_save write_chunks_sync ctrl_write_sync read_loop_sync ctrl_read_sync ctrl_cmd_sync
    frame_padded_len write_loop frame_read_chunk_next frame_write_chunks read copy
first_pairing = refl

load_or_pair_again_example :
    load_or_pair toy one_file
      (record bus { generated = none })
      sid
      (load_or_pair toy one_file bus sid unpaired).0
    ≡ ((load_or_pair toy one_file bus sid unpaired).0, ok pairing)
load_or_pair_again_example =
    load_or_pair_again toy one_file bus (record bus { generated = none }) key_pair sid pairing
      unpaired refl refl first_pairing

abbrev closed : Device
closed = record { iface = 0; ep_intr_in = 0; tls = none; sid = none; pairing = none }

contents_faultless : (path : List ℕ) (f : Option (List ℕ)) → one_file.get_contents path f ≢ fault
contents_faultless path none = λ e. cc
contents_faultless path (some bytes) = λ e. cc

one_file-IsFaultless : IsFaultless one_file bus
one_file-IsFaultless = record {
  no_fault_interfaces = λ e. cc;
  no_fault_claim = λ e. cc;
  no_fault_mkdir = λ dir f e. cc;
  no_fault_open = λ path f e. cc;
  no_fault_write = λ path bytes f e. cc;
  no_fault_contents = contents_faultless;
}

dev_open-Ends_example : Ends toy unpaired (dev_open toy one_file bus (closed, unpaired))
dev_open-Ends_example =
    dev_open-Ends toy one_file bus (closed, unpaired) refl one_file-IsFaultless
      (record {
        no_iface = refl;
        no_endpoint = refl;
        no_tls = refl;
        no_sid = refl;
        no_pairing = refl;
      })
      refl
