-- ===== src/JsonServer/Serve.antt =====
-- src/JSONserver.cpp, `JSONthread_callback`: the loop over the connected clients after an event. A
-- client whose descriptor is not ready is not stepped over.
use s_ldm.Common.{
  ℕ, zero, suc, ◌+◌, ◌≡◌, ◌<◌, ◌↔◌, refl, sym, ◌∙◌, Bool, true, false, ◌&&◌, Option, none, some,
  List, [], ◌∷◌, if◌then◌else◌, arith, length, Bool-cases, inl, inr,
}
use s_ldm.Common.Partial.{none_ne_some}
use s_ldm.Decoder.Bytes.{◌>>=◌}

-- what `recv` gives on a ready descriptor
pub data Received : Type 0 where
  closed : Received
  request : Received
  read_error : Received

-- what the loop finds out of the program: which descriptors are ready, and what is read from them
pub record Event : Type 0 where
  pub is_ready : ℕ → Bool
  pub recv : ℕ → Received

-- what the loop leaves: the descriptors that stay in the set, and those whose request is answered
pub record Served : Type 0 where
  pub connected : List ℕ
  pub answered : List ℕ

unfoldable pub serve_client : Event → ℕ → Served → Served
serve_client ev d r = elim (ev.recv d) [
  | closed ↦ r
  | request ↦ record { connected = d ∷ r.connected; answered = d ∷ r.answered }
  | read_error ↦ record r { connected = d ∷ r.connected }
]

-- The `for` loop, from its iterator on; `none` if the fuel runs out.
unfoldable pub serve : (fuel : ℕ) → Event → List ℕ → Option Served
unfolding serve_client
serve zero ev ds = none
serve (suc fuel) ev [] = some (record { connected = []; answered = [] })
serve (suc fuel) ev (d ∷ ds) =
    let next = serve fuel ev ds >>= λ r. some (serve_client ev d r) in
    let again = serve fuel ev (d ∷ ds) in if ev.is_ready d then next else again

unfoldable pub all_ready : Event → List ℕ → Bool
all_ready ev [] = true
all_ready ev (d ∷ ds) = ev.is_ready d && all_ready ev ds

pub serve-none :
    (fuel : ℕ) (ev : Event) (ds : List ℕ) → all_ready ev ds ≡ false → serve fuel ev ds ≡ none
unfolding serve all_ready
serve-none zero ev ds h = refl
serve-none (suc fuel) ev [] h = absurd (ground arith)
serve-none (suc fuel) ev (d ∷ ds) h = elim (Bool-cases (ev.is_ready d)) [
  | inl e ↦ rw (serve, e, serve-none fuel ev ds (ground arith)) refl
  | inr e ↦ rw (serve, e) (serve-none fuel ev (d ∷ ds) h)
]

serve-some :
    (fuel : ℕ) (ev : Event) (ds : List ℕ)
    → all_ready ev ds ≡ true
    → length ds < fuel
    → (r : Served) × (serve fuel ev ds ≡ some r)
unfolding serve all_ready
serve-some zero ev ds h l = absurd (omega arith)
serve-some (suc fuel) ev [] h l = (_, refl)
serve-some (suc fuel) ev (d ∷ ds) h l =
    let ready : ev.is_ready d ≡ true = ground arith in
    let (r, e) = serve-some fuel ev ds (ground arith) (omega arith) in
    (serve_client ev d r, rw (serve, ready, e) refl)

-- The loop over the clients of the JSON server ends exactly when all of them are ready at once: as
-- many rounds as there are clients, and one more, are enough then. Where one of them is not ready,
-- no number of rounds is enough, and the server answers no client any more.
serve_ends :
    (ev : Event) (ds : List ℕ)
    → ((fuel : ℕ) × (r : Served) × (serve fuel ev ds ≡ some r)) ↔ (all_ready ev ds ≡ true)
serve_ends ev ds = (
  λ (fuel, r, e). elim (Bool-cases (all_ready ev ds)) [
    | inl h ↦ h
    | inr h ↦ absurd (none_ne_some r (sym (serve-none fuel ev ds h) ∙ e))
  ],
  λ h. let (r, e) = serve-some (length ds + 1) ev ds h (omega arith) in (length ds + 1, r, e),
)
