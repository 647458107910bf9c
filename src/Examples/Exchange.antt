-- ===== src/Examples/Exchange.antt =====
-- verimark_moc_send over two ends of the channel at a concrete input.
use verimark_linux_driver.Common.{
  ℕ, ◌≡◌, refl, Option, some, List, [], ◌∷◌, ◌++◌, ok, replicate, arith, none,
}
use verimark_linux_driver.Tls.Gcm.{gcm_wrap}
use verimark_linux_driver.Usb.{Answer, arrived}
use verimark_linux_driver.Transport.Command.{cmd, write_chunk, read_chunk, CmdState}
use verimark_linux_driver.Moc.Io.{moc_read_budget}
use verimark_linux_driver.Moc.Send.{moc_send}
use verimark_linux_driver.Moc.Send.Exchange.{Reaches, moc_send-exchange}
use verimark_linux_driver.Transport.Reads.{timeouts}
use verimark_linux_driver.Tls.Channel.{rec_plain, rec_write_plain}
use verimark_linux_driver.Tls.Channel.Session.{wrap}
use verimark_linux_driver.Examples.Channel.{toy, driver_end, sensor_end}

-- The records of a command of two bytes and of an answer of three.
abbrev request : List ℕ
request = 0x17 ∷ 0x03 ∷ 0x03 ∷ 0 ∷ 26 ∷ (replicate 8 1 ++ (0x99 ∷ 0x01 ∷ replicate 16 0))

abbrev response : List ℕ
response = 0x17 ∷ 0x03 ∷ 0x03 ∷ 0 ∷ 27 ∷ (replicate 8 2 ++ (0x03 ∷ 0x02 ∷ 0x2a ∷ replicate 16 0))

abbrev next_state : CmdState → Option CmdState
next_state write_chunk = some read_chunk
next_state read_chunk = none

request_wrapped : (wrap toy (replicate 8 1) (0x99 ∷ 0x01 ∷ []) driver_end).1 ≡ ok request
unfolding wrap gcm_wrap rec_write_plain rec_plain
request_wrapped = refl

response_wrapped : (wrap toy (replicate 8 2) (0x03 ∷ 0x02 ∷ 0x2a ∷ []) sensor_end).1 ≡ ok response
unfolding wrap gcm_wrap rec_write_plain rec_plain
response_wrapped = refl

abbrev answers : List Answer
answers = arrived [] ∷ (timeouts 1 ++ (arrived response ∷ []))

moc_send-exchange_example :
    Reaches toy sensor_end (0x99 ∷ 0x01 ∷ []) (cmd next_state request (moc_read_budget 2) answers)
    × ((moc_send toy next_state (replicate 8 1) (0x99 ∷ 0x01 ∷ []) 2 answers driver_end).1
        ≡ some (ok (record { status = 0x0203; plain = 0x03 ∷ 0x02 ∷ 0x2a ∷ [] })))
moc_send-exchange_example =
    moc_send-exchange toy next_state driver_end sensor_end (replicate 8 1) (0x99 ∷ 0x01 ∷ [])
      request (replicate 8 2) 0x03 0x02 (0x2a ∷ []) response 2 1 [] [] (refl, refl)
      (record { sends = refl; receives = refl; same_key = refl; same_iv = refl })
      (record { sends = refl; receives = refl; same_key = refl; same_iv = refl }) refl refl refl
      refl (omega arith) (omega arith) (omega arith) (omega arith) request_wrapped response_wrapped
      (omega arith)
