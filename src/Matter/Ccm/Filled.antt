-- ===== src/Matter/Ccm/Filled.antt =====
-- CCM fills the interface that the frames of plugins/matter/src/message.rs use, with tags of 16 bytes.
use stulp.Prelude.{ℕ, ◌≡◌, List, length, arith}
use stulp.Matter.Message.{Cipher}
use stulp.Matter.Ccm.{seal, open_wire}
use stulp.Matter.Ccm.Open.{open_wire-seal}

-- `Ccm::new(key, 16)`, where the key's block function gives blocks of 16 bytes.
abbrev pub ccm :
    (encrypt : List ℕ → List ℕ) → ((bytes : List ℕ) → length (encrypt bytes) ≡ 16) → Cipher
ccm encrypt block = record {
  seal_text = seal encrypt 16;
  open_text = open_wire encrypt 16;
  opens = λ nonce plain aad wire sealed.
      open_wire-seal encrypt block 16 (omega arith) nonce plain aad wire sealed;
}
