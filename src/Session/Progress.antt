-- ===== src/Session/Progress.antt =====
-- Whatever bytes a client sends, a session's wait for a message ends, and does not panic.
use recisdb_proxy_rs.Protocol.MessageType.{MessageType}
use recisdb_proxy_rs.Protocol.Buf.{Buf}
use recisdb_proxy_rs.Protocol.Cut.{Cut}
use recisdb_proxy_rs.Session.Receive.{Read, message, closed, crashed, exhausted, failed}

-- A wait that ends with a message, with the end of the connection or with the error of a read.
abbrev pub Ends : Read → Type 0
Ends (message msg rest left) = Unit {0}
Ends closed = Unit {0}
Ends failed = Unit {0}
Ends crashed = ⊥
Ends exhausted = ⊥
