-- ===== src/Sessions/Users.antt =====
-- One context for each user: `get_or_create_context` of src/util/connectionManagement.c.
use inf01151_trabalho_final.Base.{
  ℕ, ◌<◌, ◌≡◌, ◌≢◌, ◌⊎◌, refl, ap, sym, ◌∙◌, some, [], ◌∷◌, ◌++◌, Bytes, length, get_elem?,
  get_elem?-grow, get_elem?-last, str_eq, str_eq_sound, Bool-cases, inl, inr,
}
use inf01151_trabalho_final.Transfer.{done}
use inf01151_trabalho_final.ContextTable.{Found, found, null, fault, search, insert}
use inf01151_trabalho_final.ContextTable.Lookup.{IsValid, insert-IsValid}
use inf01151_trabalho_final.ContextTable.History.{after, after-IsValid, search-after}
use inf01151_trabalho_final.ContextTable.Insert.{
  search-insert_self, search-insert_ne, insert-search_ne,
}
use inf01151_trabalho_final.Sessions.{UserContext, Contexts, create_context, get_or_create_context}

-- Every user that the table knows has a context, which bears the user's name.
pub record IsConsistent (s : Contexts) : Type 0 where
  pub table : IsValid s.table
  pub bound :
      (username : Bytes) (c : ℕ)
      → search s.table username ≡ found c
      → (context : UserContext) × (get_elem? s.heap c ≡ some context)
        × (context.username ≡ username)

-- What a call that returns `c` makes of the contexts.
pub record HasContext (username : Bytes) (c : ℕ) (s s' : Contexts) : Type 0 where
  pub consistent : IsConsistent s'
  pub registered : search s'.table username ≡ found c
  pub users_kept : (q : Bytes) (d : ℕ) → search s.table q ≡ found d → search s'.table q ≡ found d
  pub contexts_kept :
      (d : ℕ) (context : UserContext)
      → get_elem? s.heap d ≡ some context
      → get_elem? s'.heap d ≡ some context

-- The contexts with a new one for a user that the table does not know.
abbrev with_new : Bytes → Contexts → Contexts
with_new username s = record {
  heap = s.heap ++ create_context username ∷ [];
  table = (insert s.table username (length s.heap)).0;
}

found-ne-null : {c : ℕ} → ◌≡◌ {A = Found ℕ} (found c) null → ⊥
found-ne-null e = cc

same_value : {c d : ℕ} → ◌≡◌ {A = Found ℕ} (found c) (found d) → c ≡ d
same_value e = cc

with_new-IsConsistent :
    (username : Bytes) (s : Contexts)
    → IsConsistent s
    → search s.table username ≡ null
    → IsConsistent (with_new username s)
unfolding create_context
with_new-IsConsistent username s h e = record {
  table = insert-IsValid s.table username (length s.heap) h.table;
  bound = λ q c f. elim (Bool-cases (str_eq q username)) [
    | inl same ↦
        let name = str_eq_sound q username same in
        let at : c ≡ length s.heap = same_value (
          sym f
          ∙ ap (search (with_new username s).table) name
          ∙ search-insert_self s.table username (length s.heap) h.table) in
        (
          create_context username,
          ap (get_elem? (with_new username s).heap) at
              ∙ get_elem?-last s.heap (create_context username),
          sym name,
        )
    | inr other ↦
        let (context, at, named) =
          h.bound q c (insert-search_ne s.table username (length s.heap) q c h.table other f) in
        (context, get_elem?-grow s.heap c context (create_context username) at, named)
  ];
}

created :
    (username : Bytes) (s : Contexts)
    → search s.table username ≡ null
    → get_or_create_context username s ≡ done (length s.heap, with_new username s)
unfolding get_or_create_context insert
created username s e = rw (e, get_or_create_context)

pub reused :
    (username : Bytes) (s : Contexts) (c : ℕ)
    → search s.table username ≡ found c
    → get_or_create_context username s ≡ done (c, s)
unfolding get_or_create_context
reused username s c e = rw (e, get_or_create_context)

with_new-HasContext :
    (username : Bytes) (s : Contexts)
    → IsConsistent s
    → search s.table username ≡ null
    → HasContext username (length s.heap) s (with_new username s)
with_new-HasContext username s h e = record {
  consistent = with_new-IsConsistent username s h e;
  registered = search-insert_self s.table username (length s.heap) h.table;
  users_kept = λ q d f. elim (Bool-cases (str_eq q username)) [
    | inl same ↦
        absurd (found-ne-null (sym f ∙ ap (search s.table) (str_eq_sound q username same) ∙ e))
    | inr other ↦ search-insert_ne s.table username (length s.heap) q d h.table other f
  ];
  contexts_kept = λ d context at. get_elem?-grow s.heap d context (create_context username) at;
}

-- What a search can give.
found_cases : (f : Found ℕ) → f ≢ fault → (f ≡ null) ⊎ ((c : ℕ) × (f ≡ found c))
found_cases null h = inl refl
found_cases (found c) h = inr (c, refl)
found_cases fault h = absurd (h refl)

-- If the search for a user does not fault, the call returns a context that bears the user's name and
-- that every later search for the user finds; the contexts stay consistent, and other users keep
-- theirs, with all that they hold.
pub get_or_create_context_lem :
    (username : Bytes) (s : Contexts)
    → IsConsistent s
    → search s.table username ≢ fault
    → (c : ℕ) × (s' : Contexts) × (get_or_create_context username s ≡ done (c, s'))
      × HasContext username c s s'
get_or_create_context_lem username s h ok = elim (found_cases (search s.table username) ok) [
  | inl absent ↦ (
    length s.heap,
    with_new username s,
    created username s absent,
    with_new-HasContext username s h absent,
  )
  | inr (c, known) ↦ (
    c,
    s,
    reused username s c known,
    record {
      consistent = h;
      registered = known;
      users_kept = λ q d f. f;
      contexts_kept = λ d context at. at;
    },
  )
]

-- Two users never share a context.
pub one_user :
    (s : Contexts) (u v : Bytes) (c : ℕ)
    → IsConsistent s
    → search s.table u ≡ found c
    → search s.table v ≡ found c
    → u ≡ v
one_user s u v c h eu ev =
    let (a, at_a, named_a) = h.bound u c eu in let (b, at_b, named_b) = h.bound v c ev in cc

-- The contexts of a server that starts.
abbrev pub no_contexts : ℕ → Contexts
no_contexts size = record { heap = []; table = after size [] }

pub no_contexts-IsConsistent : (size : ℕ) → 0 < size → IsConsistent (no_contexts size)
no_contexts-IsConsistent size h = record {
  table = after-IsValid size [] h;
  bound = λ username c f. absurd (found-ne-null (sym f ∙ search-after size [] username h));
}
