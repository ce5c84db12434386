-- ===== src/Message/Bus/Resolved.antt =====
-- internal/service/message/bus.go: what one node publishes, another resolves.
use nexo.Prelude.{◌≡◌, Option, some}
use nexo.Prelude.Bytes.{Bytes}
use nexo.Store
use nexo.Message.Bus.{PushPayload}

-- `json.Unmarshal` reads back what `json.Marshal` wrote.
abbrev pub IsCodec : (PushPayload → Option Bytes) → (Bytes → Option PushPayload) → Type 0
IsCodec marshal unmarshal =
    (p : PushPayload) (raw : Bytes) → marshal p ≡ some raw → unmarshal raw ≡ some p
