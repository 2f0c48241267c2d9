-- ===== src/Gateway/Queued/Runs.antt =====
-- Runs of a server with a shared queue: handlers of its entries that run at the same time, frames and
-- their handshakes, replays of pending results, and sockets that open and close.
pub mod Idle
pub mod Picking
pub mod Sound
use node_red_contrib_pod_gat.Prelude.{
  ℕ, zero, suc, Bool, Option, none, some, List, [], ◌∷◌, ◌++◌, String, Text, nat_eq,
}
use node_red_contrib_pod_gat.Map.{Map, get}
use node_red_contrib_pod_gat.Gateway.Types.{
  Gateway, Config, Adapter, Connection, Item, Message, Parsed, truthy,
}
use node_red_contrib_pod_gat.Gateway.Send.{
  broadcast_capabilities, register_operation, unregister_operation,
}
use node_red_contrib_pod_gat.Gateway.Connect.{
  connect, disconnect, Verdict, accepts, refuses, authenticated,
}
use node_red_contrib_pod_gat.Gateway.Steps.{init, with_connection, Handshake, take_handshake}
use node_red_contrib_pod_gat.StreamQueue.Store.{failed, replied}
use node_red_contrib_pod_gat.StreamQueue.Delivery
use node_red_contrib_pod_gat.Gateway.Queued.{Backend, Server, finish_replay}
use node_red_contrib_pod_gat.Gateway.Queued.Handling.{
  Stage, looking, deciding, executing, ended, Input, begin_item, advance, leave,
}
use node_red_contrib_pod_gat.Gateway.Queued.Receive.{receive}

-- A handler that waits: the entry and the item it was given, and where it stands.
pub record Handler : Type 0 where
  pub entry : Delivery.Message
  pub original : Item
  pub stage : Stage

-- `_replayPending` that waits for Redis: the socket, the POD, and what was read for it.
pub record Replay (b : Backend) : Type 0 where
  pub ws : ℕ
  pub pod_id : String
  pub found : Option b.Found

-- The handlers that wait, the replays that do, and how the handlers that have ended did, the latest
-- first.
pub record System (b : Backend) : Type 0 where
  pub server : Server b
  pub handlers : List Handler
  pub finished : List (Handler × Delivery.Ending)
  pub replays : List (Replay b)

-- `others_change` is what other gateways make of the shared queue in between.
pub data Event (b : Backend) : Type 0 where
  connects : ℕ → String → Bool → Event b
  closes : ℕ → Event b
  frame : ℕ → ℕ → Parsed → Event b
  verdict : ℕ → Verdict → Event b
  replays_on : ℕ → Event b
  registers : Text → Adapter → Event b
  unregisters : Text → Event b
  broadcasts : Event b
  others_change : b.Store → Event b
  arrives : Delivery.Message → Item → Event b
  advances : ℕ → Input → Event b

module _ {ℓ} {A : Type ℓ} where
  unfoldable pub keep_other : A → Option (A × List A) → Option (A × List A)
  keep_other h none = none
  keep_other h (some (x, xs)) = some (x, h ∷ xs)

  -- The one that stands at this place, and the others.
  unfoldable pub pick : ℕ → List A → Option (A × List A)
  pick n [] = none
  pick zero (h ∷ hs) = some (h, hs)
  pick (suc n) (h ∷ hs) = keep_other h (pick n hs)

-- The replay that an accepted `hello` starts.
unfoldable pub replay_for : (b : Backend) → Verdict → ℕ → Option String → List (Replay b)
replay_for b (refuses code message) ws pod_id = []
replay_for b accepts ws pod_id = elim (truthy pod_id) [
  | none ↦ []
  | some pod ↦ record { ws = ws; pod_id = pod; found = none } ∷ []
]

module _ (b : Backend) where
  -- A handler that has ended leaves, behind its `finally`.
  unfoldable pub proceed : System b → Handler → List Handler → Server b × Stage → System b
  proceed y h rest (s, ended e) = record y {
    server = (leave b (s, ended e)).0;
    handlers = rest;
    finished = (h, e) ∷ y.finished;
  }
  proceed y h rest (s, stage) = record y {
    server = s;
    handlers = record h { stage = stage } ∷ rest;
  }

  unfoldable pub arrive : System b → ℕ → Delivery.Message → Item → System b
  arrive y now entry item =
      let (s, stage) = begin_item b y.server now item in
      record y {
        server = s;
        handlers = record { entry = entry; original = item; stage = stage } ∷ y.handlers;
      }

  unfoldable pub advance_at : System b → ℕ → Input → Option (Handler × List Handler) → System b
  advance_at y now input none = y
  advance_at y now input (some (h, rest)) = proceed y h rest (advance b y.server now h.stage input)

  abbrev with_gateway : System b → Gateway → System b
  with_gateway y g = record y { server = record y.server { gateway = g } }

  unfoldable pub frame_from : System b → ℕ → ℕ → ℕ → Parsed → Option Connection → System b
  frame_from y now ws bytes p none = y
  frame_from y now ws bytes p (some c) = record y { server = receive b y.server now ws c bytes p }

  -- `_hello` behind the `await` of `authenticate`, up to the first command of the replay.
  unfoldable pub welcome_from :
      System b → Gateway → Verdict → ℕ → Message → Option Connection → System b
  welcome_from y g v ws m none = with_gateway y g
  welcome_from y g v ws m (some c) = record (with_gateway y (authenticated g ws c m v)) {
    replays = replay_for b v ws m.pod_id ++ y.replays;
  }

  unfoldable pub resume_hello : System b → Verdict → Option (Handshake × List Handshake) → System b
  resume_hello y v none = y
  resume_hello y v (some ((ws, m), rest)) =
      welcome_from y (record y.server.gateway { handshakes = rest }) v ws m
        (get y.server.gateway.objects ws)

  -- The next step of a replay.
  unfoldable pub continue_replay : System b → Replay b → Option b.Found → System b
  continue_replay y x none = elim (b.read_pending_results y.server.store x.pod_id) [
    | failed e ↦ y
    | replied found ↦ record y { replays = record x { found = some found } ∷ y.replays }
  ]
  continue_replay y x (some found) = record y {
    server = finish_replay b y.server x.ws x.pod_id found;
  }

  unfoldable pub replay_at : System b → Option (Replay b × List (Replay b)) → System b
  replay_at y none = y
  replay_at y (some (x, rest)) = continue_replay (record y { replays = rest }) x x.found

  unfoldable pub step : System b → ℕ → Event b → System b
  step y now (connects ws connection_id sends) =
      with_gateway y (connect y.server.gateway ws connection_id sends)
  step y now (closes ws) =
      with_gateway y (with_connection y.server.gateway ws (disconnect y.server.gateway ws))
  step y now (frame ws bytes p) = frame_from y now ws bytes p (get y.server.gateway.objects ws)
  step y now (verdict n v) = resume_hello y v (take_handshake n y.server.gateway.handshakes)
  step y now (replays_on n) = replay_at y (pick n y.replays)
  step y now (registers operation a) =
      with_gateway y (register_operation y.server.gateway operation a)
  step y now (unregisters operation) =
      with_gateway y (unregister_operation y.server.gateway operation).0
  step y now broadcasts = with_gateway y (broadcast_capabilities y.server.gateway)
  step y now (others_change store) = record y { server = record y.server { store = store } }
  step y now (arrives entry item) = arrive y now entry item
  step y now (advances n input) = advance_at y now input (pick n y.handlers)

  unfoldable pub run : System b → List (ℕ × Event b) → System b
  run y [] = y
  run y ((now, e) ∷ es) = run (step y now e) es

  -- A server that has just been made, and what the queue kept.
  abbrev pub start : Config → Map Text Adapter → b.Store → System b
  start c adapters store = record {
    server = record { gateway = init c adapters; store = store };
    handlers = [];
    finished = [];
    replays = [];
  }
