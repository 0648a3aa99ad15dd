-- ===== src/Relayer/Reads.antt =====
-- The relayer reads no byte that was not received.
use s_ldm.Common.{
  ◌≤◌, refl, Bool, Option, none, some, List, [], ◌∷◌, length, ltb, leb, ◌&&◌, arith, Bool-cases,
  inl, inr,
}
use s_ldm.Decoder.Bytes.{Bytes}
use s_ldm.Decoder.Headers.Reads.{Succeeds, bind-Succeeds, load32-Succeeds}
use s_ldm.Double.{Double}
use s_ldm.QuadKey.Tile.{Projection}
use s_ldm.Relayer.{Relayer, read_metadata, relay, relay_all}

read_metadata-Succeeds : (buffer : Bytes) → 20 ≤ length buffer → Succeeds (read_metadata buffer)
unfolding read_metadata
read_metadata-Succeeds buffer h = bind-Succeeds _ _ (load32-Succeeds 8 buffer (omega arith)) λ lat.
    bind-Succeeds _ _ (load32-Succeeds 12 buffer (omega arith))
      λ lon. bind-Succeeds _ _ (load32-Succeeds 16 buffer (omega arith)) λ time. refl

module _ (D : Type 0) ⦃dbl : Double D⦄ ⦃proj : Projection D⦄ (skip_gn : Bool) where
  relay-Succeeds : (buffer : Bytes) (r : Relayer) → Succeeds (relay D skip_gn buffer r)
  unfolding relay
  relay-Succeeds buffer r = elim (Bool-cases (ltb (length buffer) 40)) [
    | inl e ↦ rw e refl
    | inr e ↦ elim (Bool-cases (skip_gn && leb (length buffer) 68)) [
      | inl f ↦ rw (e, f) refl
      | inr f ↦
          rw (e, f)
            (bind-Succeeds (read_metadata buffer) _
              (read_metadata-Succeeds buffer (ground (arith, e))) λ m. refl)
    ]
  ]

  -- Whatever datagrams arrive, of whatever lengths, the loop of the relayer goes through all of them
  -- without a read of a byte that was not received.
  relay_all-Succeeds :
      (received : List (Option Bytes)) (r : Relayer) → Succeeds (relay_all D skip_gn received r)
  unfolding relay_all
  relay_all-Succeeds [] r = refl
  relay_all-Succeeds (none ∷ received) r = relay_all-Succeeds received r
  relay_all-Succeeds (some buffer ∷ received) r =
      bind-Succeeds _ _ (relay-Succeeds buffer r) λ r'. relay_all-Succeeds received r'
