-- ===== src/Options/Clients/Laws.antt =====
-- What the filled fields are.
use s_ldm.Common.{
  ℕ, ◌≡◌, refl, Bool, true, false, List, [], ◌∷◌, arith, All, inl, inr, Bool-cases, List-cases,
  length,
}
use s_ldm.Numeral.{Text, skip_commas, split_token, first_segment, strtol}
use s_ldm.Options.{BrokerOptions}
use s_ldm.Options.Clients.{fill_clients, fill_amqp_idle_timeout, assign_long}

module _ (assign : Text → BrokerOptions → Bool × BrokerOptions) where
  module _ (rest : Text) (b : BrokerOptions) (bs : List BrokerOptions) where
    fill_end : skip_commas rest ≡ [] → fill_clients assign rest (b ∷ bs) ≡ (false, b ∷ bs)
    unfolding fill_clients
    fill_end e = ground arith

    module _ (c : ℕ) (s : Text) (e : skip_commas rest ≡ c ∷ s) where
      fill_stop :
          (assign (split_token (c ∷ s)).0 b).0 ≡ false
          → fill_clients assign rest (b ∷ bs) ≡ (false, b ∷ bs)
      unfolding fill_clients
      fill_stop f = ground arith

      fill_next :
          (assign (split_token (c ∷ s)).0 b).0 ≡ true
          → fill_clients assign rest (b ∷ bs) ≡ (
            (fill_clients assign (split_token (c ∷ s)).1 bs).0,
            (assign (split_token (c ∷ s)).0 b).1
                ∷ (fill_clients assign (split_token (c ∷ s)).1 bs).1,
          )
      unfolding fill_clients
      fill_next f = ground arith

  -- A fill keeps the number of the clients.
  pub length-fill_clients :
      (rest : Text) (bs : List BrokerOptions) → length (fill_clients assign rest bs).1 ≡ length bs
  length-fill_clients rest [] = unfold fill_clients in refl
  length-fill_clients rest (b ∷ bs) = elim (List-cases (skip_commas rest)) [
    | inl e ↦ rw (fill_end rest b bs e)
    | inr (c, s, e) ↦ elim (Bool-cases (assign (split_token (c ∷ s)).0 b).0) [
      | inl f ↦
          rw (fill_next rest b bs c s e f)
            (omega (arith, length-fill_clients (split_token (c ∷ s)).1 bs))
      | inr f ↦ rw (fill_stop rest b bs c s e f)
    ]
  ]

  -- What holds of every client that is filled holds of all clients after a fill that succeeds.
  pub fill_clients-All {κ} :
      (P : BrokerOptions → Type κ)
      → ((token : Text) (b : BrokerOptions) → P (assign token b).1)
      → (rest : Text) (bs : List BrokerOptions) → (fill_clients assign rest bs).0 ≡ true
      → All P (fill_clients assign rest bs).1
  fill_clients-All P h rest [] d = unfold fill_clients in tt
  fill_clients-All P h rest (b ∷ bs) d = elim (List-cases (skip_commas rest)) [
    | inl e ↦ absurd (cc (fill_end rest b bs e))
    | inr (c, s, e) ↦ elim (Bool-cases (assign (split_token (c ∷ s)).0 b).0) [
      | inl f ↦
          let next = fill_next rest b bs c s e f in
          rw next (
            h (split_token (c ∷ s)).0 b,
            fill_clients-All P h (split_token (c ∷ s)).1 bs (rw next at d),
          )
      | inr f ↦ absurd (cc (fill_stop rest b bs c s e f))
    ]
  ]

-- The idle timeouts cannot differ between the clients: where a list of them is accepted, every
-- client gets the value of the text before the second element of the list.
fill_amqp_idle_timeout_same :
    (optarg : Text) (bs : List BrokerOptions)
    → (fill_amqp_idle_timeout optarg bs).0 ≡ true
    → All
        (λ b. b.amqp_idle_timeout ≡ (strtol (first_segment optarg)).value)
        (fill_amqp_idle_timeout optarg bs).1
unfolding fill_amqp_idle_timeout
fill_amqp_idle_timeout_same optarg bs =
    fill_clients-All (assign_long optarg (λ v b. record b { amqp_idle_timeout = v }))
      (λ b. b.amqp_idle_timeout ≡ (strtol (first_segment optarg)).value) (λ token b. refl) optarg bs
