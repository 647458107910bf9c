-- ===== src/Tls/Channel/Session/Completes.antt =====
-- The whole handshake with an honest server.
use verimark_linux_driver.Common.{List}
use verimark_linux_driver.Tls.Crypto.{Crypto}
use verimark_linux_driver.Tls.Channel.{Tls}
