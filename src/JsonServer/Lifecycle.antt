-- ===== src/JsonServer/Lifecycle.antt =====
-- include/JSONserver.h and src/JSONserver.cpp: `startServer` and `stopServer`. What the calls of the
-- system return is an argument.
use s_ldm.Common.{
  ℕ, ◌≡◌, ap, ◌∙◌, Bool, true, false, not, ◌&&◌, Option, none, some, List, [], ◌∷◌, ltb,
  if◌then◌else◌, arith, Bool-cases, inl, inr,
}

-- the members; `none` is -1, and the list is of the sockets that are open
pub record Server : Type 0 where
  pub thread_running : Bool
  pub backlog_size : ℕ
  pub sockd : Option ℕ
  pub tid : Option ℕ
  pub open_sockets : List ℕ

-- the constructor
unfoldable pub new_server : Server
new_server = record {
  thread_running = false;
  backlog_size = 5;
  sockd = none;
  tid = none;
  open_sockets = [];
}

-- what `socket`, `bind`, `listen` and `pthread_create` do
pub record StartCalls : Type 0 where
  pub socket : Option ℕ
  pub bind_ok : Bool
  pub listen_ok : Bool
  pub thread : Option ℕ

unfoldable pub start_server : StartCalls → Server → Bool × Server
start_server calls s = if s.thread_running then (false, s) else elim calls.socket [
  | none ↦ (false, record s { sockd = none })
  | some d ↦
      let failed : Server = record s { sockd = none } in
      if calls.bind_ok && calls.listen_ok
      then elim calls.thread [
        | some tid ↦ (
          true,
          record s {
            sockd = some d;
            tid = some tid;
            thread_running = true;
            open_sockets = d ∷ s.open_sockets;
          },
        )
        | none ↦ (false, record failed { tid = none })
      ]
      else (false, failed)
]

-- What `stopServer` asks of the system: the thread that `pthread_cancel` is called with.
pub record StopCalls : Type 0 where
  pub cancel_ok : Option ℕ → Bool
  pub join_ok : Bool

-- A `pthread_t` is unsigned, so that `m_tid<0` is false.
unfoldable pub stop_server : StopCalls → Server → Bool × Server
stop_server calls s =
    if not s.thread_running
    then (false, s)
    else (if calls.cancel_ok s.tid
        then (if calls.join_ok then (true, record s { tid = none }) else (false, s))
        else (false, s))

-- `changeBacklogQueueSize`, on a size that is not negative
unfoldable pub change_backlog_queue_size : ℕ → Server → Server
change_backlog_queue_size size s = if ltb 0 size then record s { backlog_size = size } else s

-- `setJSONThreatRunningStatus`
unfoldable pub set_thread_running : Bool → Server → Server
set_thread_running status s = record s { thread_running = status }

stop_server-true :
    (stops : StopCalls) (s : Server)
    → (stop_server stops s).0 ≡ true
    → (s.thread_running ≡ true)
      × (stop_server stops s ≡ (true, record s { tid = none }))
      × (stops.join_ok ≡ true)
unfolding stop_server
stop_server-true stops s h = elim (Bool-cases s.thread_running) [
  | inr e ↦ absurd (ground arith)
  | inl e ↦ elim (Bool-cases (stops.cancel_ok s.tid)) [
    | inr f ↦ absurd (ground arith)
    | inl f ↦ elim (Bool-cases stops.join_ok) [
      | inr g ↦ absurd (ground arith)
      | inl g ↦ (e, simp (stop_server, e, f, g), g)
    ]
  ]
]

start_server-running :
    (calls : StartCalls) (s : Server) → s.thread_running ≡ true → start_server calls s ≡ (false, s)
unfolding start_server
start_server-running calls s h = simp (start_server, h)

stop_server-running :
    (stops : StopCalls) (s : Server)
    → s.thread_running ≡ true
    → stops.join_ok ≡ true
    → (stop_server stops s).0 ≡ stops.cancel_ok s.tid
unfolding stop_server
stop_server-running stops s h g = elim (Bool-cases (stops.cancel_ok s.tid)) [
  | inl f ↦ simp (stop_server, h, f, g)
  | inr f ↦ simp (stop_server, h, f)
]

-- A server that was stopped cannot be started again: its thread still counts as running, so that
-- each later start is refused, with the socket of the first start still open, and a second stop
-- calls `pthread_cancel` with no thread.
pub stop_server-start :
    (stops : StopCalls) (calls : StartCalls) (s : Server)
    → (stop_server stops s).0 ≡ true
    → (start_server calls (stop_server stops s).1 ≡ (false, (stop_server stops s).1))
      × ((stop_server stops s).1.open_sockets ≡ s.open_sockets)
      × ((stop_server stops (stop_server stops s).1).0 ≡ stops.cancel_ok none)
stop_server-start stops calls s h =
    let (running, stopped, joined) = stop_server-true stops s h in
    let s' = (stop_server stops s).1 in
    let same : s' ≡ record s { tid = none } = ap (λ u. u.1) stopped in
    let running' : s'.thread_running ≡ true = ap (λ u. u.thread_running) same ∙ running in
    (
      start_server-running calls s' running',
      ap (λ u. u.open_sockets) same,
      stop_server-running stops s' running' joined
          ∙ ap (λ u. stops.cancel_ok u) (ap (λ u. u.tid) same),
    )
