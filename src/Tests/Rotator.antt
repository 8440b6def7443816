-- ===== src/Tests/Rotator.antt =====
-- The rotator's theorems on two upstreams, one of them given twice, under a hash that collides.
use resocks.Base.{
  ℕ, ◌≤◌, ◌≡◌, ◌≢◌, ◌↔◌, refl, true, false, Option, none, some, List, [], ◌∷◌, length, arith,
  if◌then◌else◌,
}
use resocks.Base.Words.{from_secs}
use resocks.Error.{io, handshake, connect, is_upstream_down}
use resocks.Proxy.{ProxyConfig, direct, through, Node, socks5}
use resocks.Rating.Policy
use resocks.Rating.Quarantine.{default_cell, default_policy}
use resocks.Rating.Quarantine
use resocks.Rating.Sand
use resocks.Rating.Ratings.{Ratings}
use resocks.Rating.Ratings
use resocks.Rotator.Slots.Found.{Holds}
use resocks.Rotator.Slots.Lookup.{index_in-iff-Holds}
use resocks.Rotator.Slots.{Identity, same_upstream, add_upstreams, index_in}
use resocks.Rotator.Sticky.Complete.{run-eq-table}
use resocks.Rotator.Sticky.Eviction.{GivesUp, linked, without, insert-GivesUp}
use resocks.Rotator.Sticky.History.{
  Operation, link, unlink, get_linked, AllAgree, run, table_run, no_links, run-table_run,
  run-IsMirror,
}
use resocks.Rotator.Sticky.Mirror.{IsMirror}
use resocks.Rotator.Sticky.{StickyCache, new, insert, remove}
use resocks.Rotator.Upstreams.History.{run-IsWhole}
use resocks.Rotator.Upstreams.History as Calls
use resocks.Rotator.Upstreams.Linked.{get_linked-quarantine_now, record_error_states}
use resocks.Rotator.Upstreams.Whole.{IsWhole, Keeps}
use resocks.Rotator.Upstreams.{ProxyRotator, try_with_quarantine, built, index_of, record_error}
use resocks.Rotator.Upstreams
use resocks.Rust.Collections.{lookup}
use resocks.Rust.Text.{Bytes, codes, bytes_eq}
use resocks.Tests.Rating.{thousandths, clock_end, minute}

abbrev node : Bytes → Node
node host = record {
  protocol = socks5;
  host = host;
  port = 1080;
  user = none;
  password = none;
  gate_level = 0;
  is_gate = false;
}

abbrev a : ProxyConfig
a = direct (node (codes "a"))

abbrev b : ProxyConfig
b = direct (node (codes "b"))

abbrev listed : List ProxyConfig
listed = a ∷ b ∷ a ∷ []

abbrev collides : Identity → ℕ
collides _ = 7

abbrev calls : List (ℕ × Operation)
calls =
    (1, link (codes "x:1") a)
    ∷ (2, link (codes "y:2") b)
    ∷ (3, get_linked (codes "x:1"))
    ∷ (minute, get_linked (codes "x:1"))
    ∷ (minute, unlink (codes "y:2"))
    ∷ (minute, get_linked (codes "y:2"))
    ∷ []

run-table_run_example :
    AllAgree clock_end
      (run clock_end (new 1 (from_secs 30)) calls).1
      (table_run clock_end (from_secs 30) no_links calls)
run-table_run_example = run-table_run clock_end 1 (from_secs 30) calls

run-IsMirror_example :
    (length (run clock_end (new 1 (from_secs 30)) calls).0.map ≤ 1)
    × IsMirror (run clock_end (new 1 (from_secs 30)) calls).0
run-IsMirror_example = run-IsMirror clock_end 1 (from_secs 30) calls

run-eq-table_example :
    (run clock_end (new 2 (from_secs 30)) calls).1
    ≡ table_run clock_end (from_secs 30) no_links calls
run-eq-table_example = run-eq-table clock_end 2 (from_secs 30) calls (omega arith) (omega arith)

abbrev full : StickyCache
full = (run clock_end (new 1 (from_secs 30)) ((1, link (codes "x:1") a) ∷ [])).0

insert-GivesUp_example :
    (v : Option Bytes) × GivesUp (remove full (codes "y:2")).0 2 v
    × ((key : Bytes)
        → lookup key (insert clock_end full (codes "y:2") b 2).map ≡ (
            if bytes_eq key (codes "y:2")
            then some (linked clock_end full b 2)
            else without v key (lookup key full.map)))
unfolding insert new lookup
insert-GivesUp_example =
    insert-GivesUp clock_end full (codes "y:2") b 2
      (run-IsMirror clock_end 1 (from_secs 30) ((1, link (codes "x:1") a) ∷ [])).1 (omega arith)

index_in-iff-Holds_example :
    (index_in collides (add_upstreams collides ([], []) listed) (through (node (codes "a")) b)
      ≡ some 0)
    ↔ Holds (add_upstreams collides ([], []) listed).0 0 (through (node (codes "a")) b)
index_in-iff-Holds_example = index_in-iff-Holds collides listed (through (node (codes "a")) b) 0

abbrev two_ratings : Ratings thousandths clock_end
two_ratings = record {
  policy = Policy.default_policy thousandths;
  quarantine = default_policy;
  cells = Sand.new thousandths 0 ∷ Sand.new thousandths 0 ∷ [];
  states = default_cell ∷ default_cell ∷ [];
  rng = 42;
}

abbrev rotator : ProxyRotator thousandths clock_end collides
rotator = record {
  proxies = a ∷ b ∷ [];
  by_identity = (7, 0 ∷ 1 ∷ []) ∷ [];
  index = 0;
  sticky = new 8 minute;
  ratings = two_ratings;
}

rotator_built :
    try_with_quarantine thousandths clock_end collides listed
      (Policy.default_policy thousandths)
      default_policy
      8
      minute
      0
      42
    ≡ built rotator
unfolding try_with_quarantine Ratings.try_with_quarantine Policy.validate Quarantine.validate
    add_upstreams same_upstream bytes_eq
rotator_built = refl

abbrev rotator_calls : List (ℕ × Calls.Operation)
rotator_calls =
    (1, Calls.link (codes "x:1") a)
    ∷ (2, Calls.error b (io connect))
    ∷ (3, Calls.quarantined a)
    ∷ (4, Calls.linked (codes "x:1"))
    ∷ (5, Calls.next)
    ∷ (minute, Calls.probe)
    ∷ (minute, Calls.succeeded b)
    ∷ (minute, Calls.pick)
    ∷ []

run-IsWhole_example :
    Keeps thousandths clock_end collides
      (Calls.run thousandths clock_end collides rotator rotator_calls)
run-IsWhole_example =
    Calls.run-IsWhole thousandths clock_end collides listed 8 minute
      (Policy.default_policy thousandths) default_policy 0 42 rotator rotator_calls (omega arith)
      rotator_built

rotator-IsWhole : IsWhole thousandths clock_end collides rotator
rotator-IsWhole =
    Calls.try_with_quarantine-IsWhole thousandths clock_end collides listed 8 minute
      (Policy.default_policy thousandths) default_policy 0 42 rotator (omega arith) rotator_built

first_known :
    index_of thousandths clock_end collides rotator (through (node (codes "a")) b) ≡ some 0
unfolding index_of index_in same_upstream bytes_eq
first_known = refl

same_behind_gate : same_upstream a (through (node (codes "a")) b) ≡ true
unfolding same_upstream bytes_eq
same_behind_gate = refl

get_linked-quarantine_now_example :
    (Upstreams.get_linked thousandths clock_end collides
      (Upstreams.quarantine_now thousandths clock_end collides rotator
        (through (node (codes "a")) b)
        5).0
      (codes "x:1")
      6).1
    ≢ some a
get_linked-quarantine_now_example =
    get_linked-quarantine_now thousandths clock_end collides rotator (through (node (codes "a")) b)
      a 0 5 6 (codes "x:1") rotator-IsWhole refl first_known same_behind_gate

handshake_up : is_upstream_down (io handshake) ≡ false
unfolding is_upstream_down
handshake_up = refl

record_error_states_example :
    (r' : ProxyRotator thousandths clock_end collides) × (record_error thousandths clock_end
        collides rotator b
        (io handshake)
        5
      ≡ some (r', none))
    × (r'.ratings.states ≡ rotator.ratings.states)
record_error_states_example =
    record_error_states thousandths clock_end collides rotator b (io handshake) 5 handshake_up
