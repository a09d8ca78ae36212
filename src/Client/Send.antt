-- ===== src/Client/Send.antt =====
-- OriginalLinuxCode/QMSP_Runner.c: the message that a client makes of the text that is typed.
use qmsp.Base.{ℕ, List, ◌++◌}
use qmsp.Base.Memory.{Platform}
use qmsp.Frames.Pack.Laws.{tmd_bytes}
use qmsp.Frames.Plaintext.{ended_bytes}
use qmsp.MessageReader.Wire.{Frames}
use qmsp.Client.{client_tmd}

abbrev sent_bytes : Platform → List ℕ → List ℕ
sent_bytes p text = tmd_bytes p client_tmd ++ ended_bytes p text
