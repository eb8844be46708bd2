-- ===== src/Relay/Valid.antt =====
-- The invariant of the relay of ln-websocket-proxy/src/main.rs, over registration and leaving.
use mutiny_web_poc.Prelude.{
  ℕ, suc, ◌≤◌, ◌<◌, true, false, Option, none, some, [], ◌∷◌, length, Bytes, partial_eq_bytes,
  partial_eq_nat, ◌≡◌, refl, arith, nat_eqb_iff, bytes_eqb_iff, Bool-cases, inl, inr,
}
use mutiny_web_poc.Prelude.Assoc.{get, insert, remove, get-insert, get-remove}
use mutiny_web_poc.Relay.{Task, Server, Wire, set_task, channel_capacity, leave, open_ws}

-- A task that the map of identifiers leads to runs, and owns that identifier.
pub record Routed (s : Server) (id : Bytes) (h : ℕ) : Type 0 where
  pub task : Task
  pub found : get h s.tasks ≡ some task
  pub owned : task.owner ≡ id
  pub running : task.running ≡ true

pub record IsValid (s : Server) : Type 0 where
  pub routes : (id : Bytes) (h : ℕ) → get id s.state ≡ some h → Routed s id h
  pub fresh : (h : ℕ) (t : Task) → get h s.tasks ≡ some t → h < s.next
  pub bounded : (h : ℕ) (t : Task) → get h s.tasks ≡ some t → length t.queue ≤ channel_capacity

-- A change of one task that keeps its owner, and keeps it running or stopped.
set_task-routes :
    (s : Server) (h : ℕ) (t t' : Task)
    → get h s.tasks ≡ some t
    → t'.owner ≡ t.owner
    → t'.running ≡ t.running
    → (id : Bytes) (k : ℕ) → Routed s id k
    → Routed (set_task h t' s) id k
set_task-routes s h t t' at ow ru id k r = elim (Bool-cases (partial_eq_nat.eqb h k)) [
  | inl e ↦ record {
    task = t';
    found = ground (arith, get-insert h k t' s.tasks);
    owned = ground (arith, r.found, r.owned, nat_eqb_iff h k);
    running = ground (arith, r.found, r.running, nat_eqb_iff h k);
  }
  | inr e ↦ record {
    task = r.task;
    found = ground (arith, get-insert h k t' s.tasks, r.found);
    owned = r.owned;
    running = r.running;
  }
]

pub set_task-IsValid :
    (s : Server) (h : ℕ) (t t' : Task)
    → get h s.tasks ≡ some t
    → t'.owner ≡ t.owner
    → t'.running ≡ t.running
    → length t'.queue ≤ channel_capacity
    → IsValid s
    → IsValid (set_task h t' s)
set_task-IsValid s h t t' at ow ru room v = record {
  routes = λ id k e. set_task-routes s h t t' at ow ru id k (v.routes id k e);
  fresh =
      λ k u e. ground (arith, get-insert h k t' s.tasks, nat_eqb_iff h k, v.fresh h t, v.fresh k u);
  bounded = λ k u e. ground (arith, get-insert h k t' s.tasks, nat_eqb_iff h k, v.bounded k u);
}

leave-routes :
    (h : ℕ) (t : Task) (s : Server)
    → get h s.tasks ≡ some t
    → IsValid s
    → (id : Bytes) (k : ℕ) → get id (remove t.owner s.state) ≡ some k
    → (partial_eq_nat.eqb h k ≡ false) × (get id s.state ≡ some k)
leave-routes h t s at v id k e =
    let kept : get id s.state ≡ some k = ground (arith, get-remove t.owner id s.state, e) in
    let r = v.routes id k kept in
    let other : partial_eq_bytes.eqb t.owner id ≡ false =
      ground (arith, get-remove t.owner id s.state, e) in
    (ground (arith, at, r.found, r.owned, nat_eqb_iff h k, bytes_eqb_iff t.owner id, other), kept)

-- The entry of a handler that leaves goes with it, so the map leads to no stopped task.
pub leave-IsValid :
    (h : ℕ) (t : Task) (s : Server)
    → get h s.tasks ≡ some t
    → IsValid s
    → IsValid (leave h t.owner s)
unfolding leave
leave-IsValid h t s at v =
    rw (at, leave)
      (record {
        routes = λ id k e.
            let (apart, kept) = leave-routes h t s at v id k e in
            let r = v.routes id k kept in
            record {
              task = r.task;
              found = ground (
                arith,
                get-insert h k (record t { running = false; queue = [] }) s.tasks,
                r.found,
                apart,
              );
              owned = r.owned;
              running = r.running;
            };
        fresh = λ k u e. ground (
          arith,
          get-insert h k (record t { running = false; queue = [] }) s.tasks,
          nat_eqb_iff h k,
          v.fresh h t,
          v.fresh k u,
        );
        bounded = λ k u e. ground (
          arith,
          get-insert h k (record t { running = false; queue = [] }) s.tasks,
          nat_eqb_iff h k,
          v.bounded k u,
        );
      })

abbrev fresh_task : Bytes → Task
fresh_task id = record { owner = id; queue = []; connected_peers = []; sent = []; running = true }

register-IsValid :
    (id : Bytes) (s : Server)
    → IsValid s
    → IsValid (record {
      state = insert id s.next s.state;
      tasks = insert s.next (fresh_task id) s.tasks;
      listeners = s.listeners;
      next = suc s.next;
    })
register-IsValid id s v = record {
  routes = λ j k e. elim (Bool-cases (partial_eq_bytes.eqb id j)) [
    | inl same ↦ record {
      task = fresh_task id;
      found = ground (
        arith,
        get-insert id j s.next s.state,
        get-insert s.next k (fresh_task id) s.tasks,
        nat_eqb_iff s.next k,
      );
      owned = (bytes_eqb_iff id j).0 same;
      running = refl;
    }
    | inr apart ↦
        let r = v.routes j k (ground (arith, get-insert id j s.next s.state)) in
        record {
          task = r.task;
          found = ground (
            arith,
            get-insert s.next k (fresh_task id) s.tasks,
            nat_eqb_iff s.next k,
            v.fresh k r.task r.found,
            r.found,
          );
          owned = r.owned;
          running = r.running;
        }
  ];
  fresh = λ k u e.
      ground
        (arith, get-insert s.next k (fresh_task id) s.tasks, nat_eqb_iff s.next k, v.fresh k u);
  bounded = λ k u e.
      ground
        (arith, get-insert s.next k (fresh_task id) s.tasks, nat_eqb_iff s.next k, v.bounded k u);
}

pub open_ws-IsValid :
    (w : Wire) (identifier : Bytes) (s : Server) → IsValid s → IsValid (open_ws w identifier s)
unfolding open_ws
open_ws-IsValid w identifier s v = go (w.from_hex identifier) refl
  where
    go : (o : Option Bytes) → w.from_hex identifier ≡ o → IsValid (open_ws w identifier s)
    go none e = rw (e, open_ws) v
    go (some []) e = rw (e, open_ws) v
    go (some (b ∷ bs)) e = rw (e, open_ws) (register-IsValid (b ∷ bs) s v)
