-- ===== src/Sessions/Disconnect.antt =====
-- `disconnect_all_users` of src/util/connectionManagement.c.
use native.Mathlib.Decide.{ℕ_discrete}
use inf01151_trabalho_final.Base.{
  ℕ, zero, suc, ◌<◌, ◌≡◌, refl, ap, subst, sym, ◌∙◌, Bool, true, false, Option, some, none, List,
  [], ◌∷◌, arith, Bytes, length, get_elem?, get_or, set, length-set, get_elem?-set_self,
  get_elem?-set_ne, get_elem?-some, All, ◌==◌, eqb_refl, eqb_ne, if◌then◌else◌,
}
use inf01151_trabalho_final.Transfer.{Io, done, ◌>>=◌}
use inf01151_trabalho_final.ContextTable.{HashTable, found, search, key_hash}
use inf01151_trabalho_final.ContextTable.Lookup.{newest}
use inf01151_trabalho_final.ContextTable.Insert.{search-newest_in}
use inf01151_trabalho_final.Sessions.{
  UserContext, Contexts, disconnect, slot, disconnect_chain, disconnect_buckets,
  disconnect_all_users,
}

-- Whether a chain, or a chain of the array, has an entry for the context.
abbrev pub listed : ℕ → List (Bytes × ℕ) → Bool
listed j [] = false
listed j ((username, c) ∷ chain) = if c == j then true else listed j chain

abbrev pub listed_in : ℕ → List (List (Bytes × ℕ)) → Bool
listed_in j [] = false
listed_in j (chain ∷ array) = if listed j chain then true else listed_in j array

-- Every entry is for an allocated context.
abbrev pub InHeap : ℕ → List (Bytes × ℕ) → Type 0
InHeap size = All (λ n. n.1 < size)

abbrev cut : Option UserContext → Option UserContext
cut none = none
cut (some context) = some (disconnect context)

abbrev cut_if : Bool → Option UserContext → Option UserContext
cut_if true o = cut o
cut_if false o = o

-- The contexts of the tested entries have lost their sessions, and nothing else is changed.
record Cuts (test : ℕ → Bool) (heap : List UserContext) (result : Io (List UserContext))
    : Type 0 where
  pub heap_after : List UserContext
  pub returns : result ≡ done heap_after
  pub same_size : length heap_after ≡ length heap
  pub at : (j : ℕ) → get_elem? heap_after j ≡ cut_if (test j) (get_elem? heap j)

cut_twice : (b : Bool) (o : Option UserContext) → cut_if b (cut o) ≡ cut o
cut_twice true none = refl
cut_twice true (some context) = refl
cut_twice false o = refl

cut_or :
    (a b : Bool) (o : Option UserContext) → cut_if b (cut_if a o) ≡ cut_if (if a then true else b) o
cut_or true b o = cut_twice b o
cut_or false b o = refl

chain_step :
    (username : Bytes) (c : ℕ) (node : List (Bytes × ℕ)) (heap : List UserContext)
    (context : UserContext)
    → get_elem? heap c ≡ some context
    → disconnect_chain ((username, c) ∷ node) heap
      ≡ disconnect_chain node (set heap c (disconnect context))
unfolding disconnect_chain
chain_step username c node heap context at = rw (at, disconnect_chain) refl

set_is_cut :
    (heap : List UserContext) (c j : ℕ) (context : UserContext)
    → c < length heap
    → get_elem? heap c ≡ some context
    → get_elem? (set heap c (disconnect context)) j ≡ cut_if (c == j) (get_elem? heap j)
set_is_cut heap c j context h at = elim (ℕ_discrete c j) [
  | yes e ↦
      subst
        (λ k. get_elem? (set heap c (disconnect context)) k ≡ cut_if (c == k) (get_elem? heap k)) e
        (rw (eqb_refl c, at) (get_elem?-set_self heap c (disconnect context) h))
  | no ne ↦ rw (eqb_ne ne) (get_elem?-set_ne heap (disconnect context) ne)
]

disconnect_chain-Cuts :
    (chain : List (Bytes × ℕ)) (heap : List UserContext)
    → InHeap (length heap) chain
    → Cuts (λ j. listed j chain) heap (disconnect_chain chain heap)
unfolding disconnect_chain
disconnect_chain-Cuts [] heap h = record {
  heap_after = heap;
  returns = refl;
  same_size = refl;
  at = λ j. refl;
}
disconnect_chain-Cuts ((username, c) ∷ node) heap h =
    let (context, at) = get_elem?-some heap c h.0 in
    let heap' = set heap c (disconnect context) in
    let size = length-set heap c (disconnect context) in
    let rest = disconnect_chain-Cuts node heap' (subst (λ n. InHeap n node) (sym size) h.1) in
    record {
      heap_after = rest.heap_after;
      returns = chain_step username c node heap context at ∙ rest.returns;
      same_size = rest.same_size ∙ size;
      at = λ j.
          rest.at j
          ∙ ap (cut_if (listed j node)) (set_is_cut heap c j context h.0 at)
          ∙ cut_or (c == j) (listed j node) (get_elem? heap j);
    }

buckets_step :
    (chain : List (Bytes × ℕ)) (array : List (List (Bytes × ℕ))) (heap heap' : List UserContext)
    → disconnect_chain chain heap ≡ done heap'
    → disconnect_buckets (chain ∷ array) heap ≡ disconnect_buckets array heap'
unfolding disconnect_buckets
buckets_step chain array heap heap' e = rw (e, disconnect_buckets) refl

disconnect_buckets-Cuts :
    (array : List (List (Bytes × ℕ))) (heap : List UserContext)
    → All (InHeap (length heap)) array
    → Cuts (λ j. listed_in j array) heap (disconnect_buckets array heap)
unfolding disconnect_buckets
disconnect_buckets-Cuts [] heap h = record {
  heap_after = heap;
  returns = refl;
  same_size = refl;
  at = λ j. refl;
}
disconnect_buckets-Cuts (chain ∷ array) heap h =
    let first = disconnect_chain-Cuts chain heap h.0 in
    let rest =
      disconnect_buckets-Cuts array first.heap_after
        (subst (λ n. All (InHeap n) array) (sym first.same_size) h.1) in
    record {
      heap_after = rest.heap_after;
      returns = buckets_step chain array heap first.heap_after first.returns ∙ rest.returns;
      same_size = rest.same_size ∙ first.same_size;
      at = λ j.
          rest.at j
          ∙ ap (cut_if (listed_in j array)) (first.at j)
          ∙ cut_or (listed j chain) (listed_in j array) (get_elem? heap j);
    }

-- What a search finds is listed.
newest-listed :
    (chain : List (Bytes × ℕ)) (username : Bytes) (c : ℕ)
    → newest chain username ≡ some c
    → listed c chain ≡ true
newest-listed [] username c e = cc
newest-listed ((k, d) ∷ chain) username c e = ground (arith, newest-listed chain username c)

bucket-listed :
    (array : List (List (Bytes × ℕ))) (i : ℕ) (username : Bytes) (c : ℕ)
    → newest (get_or array i []) username ≡ some c
    → listed_in c array ≡ true
bucket-listed [] i username c e = cc
bucket-listed (chain ∷ array) zero username c e = rw (newest-listed chain username c e) refl
bucket-listed (chain ∷ array) (suc i) username c e =
    ground (arith, bucket-listed array i username c e)

pub search-listed :
    (t : HashTable ℕ) (username : Bytes) (c : ℕ)
    → search t username ≡ found c
    → listed_in c t.array ≡ true
search-listed t username c e =
    bucket-listed t.array (key_hash username t.size) username c (search-newest_in t username c e)

-- A context with the user's name and files, and no session.
pub record IsEmptied (before after : UserContext) : Type 0 where
  pub same_username : after.username ≡ before.username
  pub same_files : after.file_list ≡ before.file_list
  pub no_session : (i : ℕ) → slot after i ≡ none

disconnect-IsEmptied : (context : UserContext) → IsEmptied context (disconnect context)
disconnect-IsEmptied context = record {
  same_username = refl;
  same_files = refl;
  no_session = no_slots;
}
  where
    no_slots : (i : ℕ) → slot (disconnect context) i ≡ none
    no_slots zero = refl
    no_slots (suc zero) = refl
    no_slots (suc (suc i)) = refl

-- All known users are disconnected, and the other contexts are as before.
pub record AllEmptied (s s' : Contexts) : Type 0 where
  pub same_table : s'.table ≡ s.table
  pub known_emptied :
      (username : Bytes) (c : ℕ) (context : UserContext)
      → search s.table username ≡ found c
      → get_elem? s.heap c ≡ some context
      → (after : UserContext) × (get_elem? s'.heap c ≡ some after) × IsEmptied context after
  pub others_kept :
      (j : ℕ) → listed_in j s.table.array ≡ false → get_elem? s'.heap j ≡ get_elem? s.heap j

users_step :
    (s : Contexts) (heap' : List UserContext)
    → disconnect_buckets s.table.array s.heap ≡ done heap'
    → disconnect_all_users s ≡ done (record s { heap = heap' })
unfolding disconnect_all_users
users_step s heap' e = ap (λ r. r >>= (λ h. done (record s { heap = h }))) e

-- When every entry of the table is for an allocated context, disconnect_all_users runs through
-- without a fault and keeps the table. The context of every user that a search finds then has
-- the same name and files and no session in any slot, and a context that no entry of the table
-- is for is as before.
pub disconnect_all_users_lem :
    (s : Contexts)
    → All (InHeap (length s.heap)) s.table.array
    → (s' : Contexts) × (disconnect_all_users s ≡ done s') × AllEmptied s s'
disconnect_all_users_lem s h =
    let cuts = disconnect_buckets-Cuts s.table.array s.heap h in
    (
      record s { heap = cuts.heap_after },
      users_step s cuts.heap_after cuts.returns,
      record {
        same_table = refl;
        known_emptied = λ username c context found_it at. (
          disconnect context,
          cuts.at c
              ∙ ap (λ b. cut_if b (get_elem? s.heap c)) (search-listed s.table username c found_it)
              ∙ ap cut at,
          disconnect-IsEmptied context,
        );
        others_kept = λ j unlisted. cuts.at j ∙ ap (λ b. cut_if b (get_elem? s.heap j)) unlisted;
      },
    )
