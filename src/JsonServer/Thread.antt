-- ===== src/JsonServer/Thread.antt =====
-- src/JSONserver.cpp, `JSONthread_callback`: the loop of the thread, over what each call of `select`
-- reports. The descriptors that are monitored are those of the set and that of the server.
use s_ldm.Common.{
  ℕ, zero, suc, ◌+◌, ◌≡◌, ◌<◌, ◌≤◌, ◌↔◌, refl, sym, ap, ◌∙◌, Bool, true, false, ◌&&◌, Option, none,
  some, List, [], ◌∷◌, ◌++◌, ◌==◌, ltb, if◌then◌else◌, arith, length, Bool-cases, Option-cases, inl,
  inr,
}
use s_ldm.Common.Partial.{Yields, Yields-bind, Yields-some, none_ne_some}
use s_ldm.Decoder.Bytes.{◌>>=◌}
use s_ldm.JsonServer.Serve.{closed, Event, Served, serve_client, serve, all_ready, serve-none}

-- what happened: `select` failed, the server's own socket is ready and `accept` returns, or others are
pub data Wake : Type 0 where
  select_failed : Wake
  connection : (accepted : Option ℕ) → Wake
  readable : Event → Wake

-- whether the thread runs, `sockdescrs_set` in its order, and the clients that were answered
pub record ServerThread : Type 0 where
  pub running : Bool
  pub connected : List ℕ
  pub answered : List ℕ

-- `std::set::insert`
unfoldable pub insert_descriptor : ℕ → List ℕ → List ℕ
insert_descriptor d [] = d ∷ []
insert_descriptor d (e ∷ es) =
    let rest = insert_descriptor d es in
    if d == e then e ∷ es else (if ltb d e then d ∷ e ∷ es else e ∷ rest)

-- one turn of the loop; `none` if the fuel runs out
unfoldable pub thread_round : (fuel : ℕ) → Wake → ServerThread → Option ServerThread
unfolding insert_descriptor
thread_round fuel select_failed t = some (record t { running = false })
thread_round fuel (connection none) t = some t
thread_round fuel (connection (some d)) t =
    some (record t { connected = insert_descriptor d t.connected })
thread_round fuel (readable ev) t = serve fuel ev t.connected >>= λ r.
    some (record t { connected = r.connected; answered = t.answered ++ r.answered })

unfoldable pub thread_loop : (fuel : ℕ) → List Wake → ServerThread → Option ServerThread
unfolding thread_round
thread_loop fuel [] t = some t
thread_loop fuel (w ∷ ws) t =
    let next = thread_round fuel w t >>= λ u. thread_loop fuel ws u in
    if t.running then next else some t

-- the clients that have not closed their connection
abbrev pub still : Event → List ℕ → List ℕ
still ev [] = []
still ev (d ∷ ds) = elim (ev.recv d) [ closed ↦ still ev ds | _ ↦ d ∷ still ev ds ]

-- whether the thread is never woken for a client while another one is idle
abbrev pub none_idle : List Wake → List ℕ → Bool
none_idle [] ds = true
none_idle (select_failed ∷ ws) ds = true
none_idle (connection none ∷ ws) ds = none_idle ws ds
none_idle (connection (some d) ∷ ws) ds = none_idle ws (insert_descriptor d ds)
none_idle (readable ev ∷ ws) ds = all_ready ev ds && none_idle ws (still ev ds)

serve_client-still :
    (ev : Event) (d : ℕ) (ds : List ℕ) (r : Served)
    → r.connected ≡ still ev ds
    → (serve_client ev d r).connected ≡ still ev (d ∷ ds)
unfolding serve_client
serve_client-still ev d ds r h = ground (arith, h)

-- what the loop over the clients leaves
serve-still :
    (fuel : ℕ) (ev : Event) (ds : List ℕ)
    → all_ready ev ds ≡ true
    → length ds < fuel
    → (r : Served) × (serve fuel ev ds ≡ some r) × (r.connected ≡ still ev ds)
unfolding serve all_ready
serve-still zero ev ds h enough = absurd (omega arith)
serve-still (suc fuel) ev [] h enough = (_, refl, refl)
serve-still (suc fuel) ev (d ∷ ds) h enough =
    let ready : ev.is_ready d ≡ true = ground arith in
    let (r, e, f) = serve-still fuel ev ds (ground arith) (omega arith) in
    (serve_client ev d r, rw (serve, ready, e) refl, serve_client-still ev d ds r f)

length-still : (ev : Event) (ds : List ℕ) → length (still ev ds) ≤ length ds
length-still ev [] = omega arith
length-still ev (d ∷ ds) = ground (arith, length-still ev ds)

length-insert_descriptor : (d : ℕ) (ds : List ℕ) → length (insert_descriptor d ds) ≤ length ds + 1
unfolding insert_descriptor
length-insert_descriptor d [] = omega arith
length-insert_descriptor d (e ∷ es) = ground (arith, length-insert_descriptor d es)

serve-Yields :
    (fuel : ℕ) (ev : Event) (ds : List ℕ)
    → Yields (λ r. r.connected ≡ still ev ds) (serve fuel ev ds)
unfolding serve
serve-Yields zero ev ds = tt
serve-Yields (suc fuel) ev [] = refl
serve-Yields (suc fuel) ev (d ∷ ds) = elim (Bool-cases (ev.is_ready d)) [
  | inl e ↦ rw e (
      Yields-bind _ _ (λ r. some (serve_client ev d r)) (serve fuel ev ds) (serve-Yields fuel ev ds)
        λ r h. serve_client-still ev d ds r h)
  | inr e ↦ rw e (serve-Yields fuel ev (d ∷ ds))
]

stopped_lem :
    (fuel : ℕ) (ws : List Wake) (t : ServerThread)
    → t.running ≡ false
    → thread_loop fuel ws t ≡ some t
unfolding thread_loop
stopped_lem fuel [] t h = refl
stopped_lem fuel (w ∷ ws) t h = rw h refl

-- the rest of the loop after the one over the clients
abbrev turned : ℕ → Event → List Wake → ServerThread → Option Served → Option ServerThread
turned fuel ev ws t served =
    served
    >>= (λ r. some (record t { connected = r.connected; answered = t.answered ++ r.answered }))
    >>= λ u. thread_loop fuel ws u

running_lem :
    (fuel : ℕ) (w : Wake) (ws : List Wake) (t : ServerThread)
    → t.running ≡ true
    → thread_loop fuel (w ∷ ws) t ≡ (thread_round fuel w t >>= λ u. thread_loop fuel ws u)
unfolding thread_loop
running_lem fuel w ws t on =
    ap (λ b. if b then (thread_round fuel w t >>= λ u. thread_loop fuel ws u) else some t) on

thread_loop-some :
    (fuel : ℕ) (ws : List Wake) (t : ServerThread)
    → t.running ≡ true
    → none_idle ws t.connected ≡ true
    → length t.connected + length ws < fuel
    → (u : ServerThread) × (thread_loop fuel ws t ≡ some u)
unfolding thread_loop thread_round
thread_loop-some fuel [] t on h enough = (t, refl)
thread_loop-some fuel (select_failed ∷ ws) t on h enough =
    let stopped = record t { running = false } in
    (stopped, running_lem fuel select_failed ws t on ∙ stopped_lem fuel ws stopped refl)
thread_loop-some fuel (connection none ∷ ws) t on h enough =
    let (u, e) = thread_loop-some fuel ws t on h (omega arith) in
    (u, running_lem fuel (connection none) ws t on ∙ e)
thread_loop-some fuel (connection (some d) ∷ ws) t on h enough =
    let t' = record t { connected = insert_descriptor d t.connected } in
    let (u, e) =
      thread_loop-some fuel ws t' on h (omega (arith, length-insert_descriptor d t.connected)) in
    (u, running_lem fuel (connection (some d)) ws t on ∙ e)
thread_loop-some fuel (readable ev ∷ ws) t on h enough =
    let (r, e, f) = serve-still fuel ev t.connected (ground arith) (omega arith) in
    let t' = record t { connected = r.connected; answered = t.answered ++ r.answered } in
    let later : none_idle ws r.connected ≡ true = rw f (ground arith) in
    let few : length r.connected ≤ length t.connected = rw f (length-still ev t.connected) in
    let (u, g) = thread_loop-some fuel ws t' on later (omega arith) in
    (u, running_lem fuel (readable ev) ws t on ∙ ap (turned fuel ev ws t) e ∙ g)

thread_loop-none :
    (fuel : ℕ) (ws : List Wake) (t : ServerThread)
    → t.running ≡ true
    → none_idle ws t.connected ≡ false
    → thread_loop fuel ws t ≡ none
unfolding thread_loop thread_round
thread_loop-none fuel [] t on h = absurd (ground arith)
thread_loop-none fuel (select_failed ∷ ws) t on h = absurd (ground arith)
thread_loop-none fuel (connection none ∷ ws) t on h =
    running_lem fuel (connection none) ws t on ∙ thread_loop-none fuel ws t on h
thread_loop-none fuel (connection (some d) ∷ ws) t on h =
    running_lem fuel (connection (some d)) ws t on
    ∙ thread_loop-none fuel ws (record t { connected = insert_descriptor d t.connected }) on h
thread_loop-none fuel (readable ev ∷ ws) t on h = elim (Bool-cases (all_ready ev t.connected)) [
  | inr idle ↦
      running_lem fuel (readable ev) ws t on
      ∙ ap (turned fuel ev ws t) (serve-none fuel ev t.connected idle)
  | inl ready ↦ elim (Option-cases (serve fuel ev t.connected)) [
    | inl e ↦ running_lem fuel (readable ev) ws t on ∙ ap (turned fuel ev ws t) e
    | inr (r, e) ↦
        let f = Yields-some _ (serve fuel ev t.connected) r (serve-Yields fuel ev t.connected) e in
        let t' = record t { connected = r.connected; answered = t.answered ++ r.answered } in
        let later : none_idle ws r.connected ≡ false = rw f (ground (arith, ready)) in
        running_lem fuel (readable ev) ws t on
        ∙ ap (turned fuel ev ws t) e
        ∙ thread_loop-none fuel ws t' on later
  ]
]

-- The thread of the JSON server gets through what it is woken for exactly when it is never woken for
-- a client while another one is idle: a number of rounds for each of its loops is enough then. Where
-- once it is, it stays in the loop over its clients for ever and answers no one any more.
pub thread_ends :
    (ws : List Wake) (t : ServerThread)
    → t.running ≡ true
    → ((fuel : ℕ) × (u : ServerThread) × (thread_loop fuel ws t ≡ some u))
      ↔ (none_idle ws t.connected ≡ true)
thread_ends ws t on = (
  λ (fuel, u, e). elim (Bool-cases (none_idle ws t.connected)) [
    | inl h ↦ h
    | inr h ↦ absurd (none_ne_some u (sym (thread_loop-none fuel ws t on h) ∙ e))
  ],
  λ h.
      let fuel = length t.connected + length ws + 1 in
      let (u, e) = thread_loop-some fuel ws t on h (omega arith) in (fuel, u, e),
)
