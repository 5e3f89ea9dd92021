-- ===== src/Sirsetup/Setup/Signature.antt =====
-- ProcessSetupPacket's test of the signature.
use vanilla_utilities.Base.{arith, ℕ, ◌≡◌, ◌==◌, not, List, ◌∷◌}
use vanilla_utilities.Base.Words.{same_bytes}
use vanilla_utilities.Sirsetup.{SetupData}
use vanilla_utilities.Sirsetup.Setup.{signature_differs}

-- The bug: whether a setup packet's signature differs is decided by its first byte alone.
signature_differs-first :
    (d : SetupData) (c : ℕ) (bytes : List ℕ)
    → d.signature ≡ c ∷ bytes
    → signature_differs d ≡ not (c == 0xb2)
unfolding signature_differs same_bytes
signature_differs-first d c bytes h = rw h (ground arith)
