-- ===== src/System.antt =====
-- The running program: what the threads of src/main.cpp do to the database, the trigger manager and
-- the visualizer that they share, as a sequence of steps. A step is one handled message, one round of
-- a periodic thread, or the start or end of a thread.
pub mod Shown
pub mod Rounds
pub mod Startup
pub mod Backed
pub mod Sound
pub mod Found
pub mod Safety
pub mod Wakeup
pub mod Answers
mod Tests
use s_ldm.AmqpClient.{CamView, ProtonMessage}
use s_ldm.AmqpClient.Message.{Client, State, Surroundings, Memory, on_message}
use s_ldm.Common.{ℕ, ◌≡◌, Bool, true, false, Option, none, some, [], if◌then◌else◌}
use s_ldm.Decoder.Frontend.{Asn}
use s_ldm.Double.{Double}
use s_ldm.Ldm
use s_ldm.Ldm.{History, LdmMap, set_central_lat_lon}
use s_ldm.Options.{Options}
use s_ldm.Program.Threads.{
  Phase, starting, looping, Threads, start_cleaner, start_updater, update, clean,
}
use s_ldm.TriggerManager
use s_ldm.TriggerManager.{notify_op_termination, set_left_turn_indicator_enable}
use s_ldm.Visualizer.{SocketCalls, ServerCalls}

pub record System (D P : Type 0) : Type 0 where
  -- what the clients of the brokers share
  pub clients : State D P
  pub threads : Threads D

module _ {D P : Type 0} ⦃dbl : Double D⦄ where
  -- what `main` makes before it starts the threads
  unfoldable pub initial : Options D → System D P
  unfolding Ldm.new set_central_lat_lon TriggerManager.new set_left_turn_indicator_enable
  initial o =
      let itm = TriggerManager.new true (some o) in
      record {
        clients = record {
          db =
              set_central_lat_lon (dbl.div (dbl.add o.min_lat o.max_lat) (dbl.of_ℕ 2))
                (dbl.div (dbl.add o.min_lon o.max_lon) (dbl.of_ℕ 2)) (Ldm.new (dbl.of_ℕ 0));
          trigger =
              if o.left_indicator_trg_enable then set_left_turn_indicator_enable true itm else itm;
          rest_clients = [];
        };
        threads = record {
          terminated = false;
          cleaner = starting;
          updater = starting;
          visualizer = none;
        };
      }

  module _ ⦃hist : History D P⦄ (M : Type 0) ⦃asn : Asn M⦄ ⦃cams : CamView M⦄ (o : Options D) where
    pub data Step (s : System D P) : System D P → Type 0 where
      -- a client handles a message
      received :
          {after : State D P} (c : Client D) (env : Surroundings) (memory : Memory D M)
          (msg : ProtonMessage)
          → c.opts ≡ o
          → on_message c env memory msg s.clients ≡ some after
          → Step s (record s { clients = after })
      -- a client ends with an exception
      failed : Step s (record s { threads = record s.threads { terminated = true } })
      -- a client of the Maneuvering Service ends
      released :
          (id : ℕ)
          → Step s (record s {
            clients = record s.clients { trigger = notify_op_termination id s.clients.trigger };
          })
      cleaner_started :
          (timer_started : Bool)
          → s.threads.cleaner ≡ starting
          → Step s (record s { threads = start_cleaner timer_started s.threads })
      updater_started :
          {after : Threads D} (server : ServerCalls) (socket : SocketCalls) (timer_started : Bool)
          (length : ℕ)
          → s.threads.updater ≡ starting
          → start_updater o server socket timer_started length s.clients.db s.threads ≡ some after
          → Step s (record s { threads = after })
      cleaned :
          {db : LdmMap D P} {after : Threads D} (expired : Bool) (now : ℕ)
          → s.threads.cleaner ≡ looping
          → clean expired now s.clients.db s.threads ≡ some (db, after)
          → Step s (record { clients = record s.clients { db = db }; threads = after })
      updated :
          {after : Threads D} (expired : Bool) (length : ℕ)
          → s.threads.updater ≡ looping
          → update expired length s.clients.db s.threads ≡ some after
          → Step s (record s { threads = after })

    pub data Reach (s : System D P) : System D P → Type 0 where
      here : Reach s s
      next : {t u : System D P} → Reach s t → Step t u → Reach s u
