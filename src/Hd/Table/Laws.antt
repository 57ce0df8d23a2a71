-- ===== src/Hd/Table/Laws.antt =====
-- What eviction keeps of the dynamic table (RFC 7541, section 4).
use newhttp.Common.{
  ℕ, zero, suc, ◌+◌, ◌-◌, ◌≤◌, ◌<◌, ◌≡◌, refl, arith, Bool, true, false, ◌&&◌, List, [], ◌∷◌,
  Option, length, leb, ltb, if◌then◌else◌, Bool-cases, inl, inr, ltb→lt, leb→le, ap, ltb→ge, ◌∙◌,
  sym, ◌⊎◌, some, none, ◌||◌,
}
use newhttp.Frame.Types.{Nv}
use newhttp.Hd.Table.{
  Entry, Context, nv_room, last_room, pop_back, evict_one, evict, hd_context_shrink_table_size,
  add_hd_table_incremental,
}

-- The size of a table as the specification defines it.
abbrev pub table_room : List Entry → ℕ
table_room [] = 0
table_room (e ∷ es) = nv_room e.nv + table_room es

-- The longest part of a table, from the newest entry on, that fits a limit.
abbrev pub fit : ℕ → List Entry → List Entry
fit limit [] = []
fit limit (e ∷ es) =
    let rest = fit (limit - nv_room e.nv) es in if leb (nv_room e.nv) limit then e ∷ rest else []

-- The recorded size is the size of the entries, and at most the limit.
pub record IsTable (c : Context) : Type 0 where
  pub size : c.hd_table_bufsize ≡ table_room c.hd_table
  pub small : c.hd_table_bufsize ≤ c.hd_table_bufsize_max

fit_all : (limit : ℕ) (es : List Entry) → table_room es ≤ limit → fit limit es ≡ es
fit_all limit [] h = refl
fit_all limit (e ∷ es) h = ground (arith, fit_all (limit - nv_room e.nv) es (omega arith))

fit_small : (limit : ℕ) (es : List Entry) → table_room (fit limit es) ≤ limit
fit_small limit [] = omega arith
fit_small limit (e ∷ es) = ground (arith, fit_small (limit - nv_room e.nv) es)

pop_back-room : (es : List Entry) → table_room (pop_back es) + last_room es ≡ table_room es
unfolding pop_back last_room
pop_back-room [] = refl
pop_back-room (e ∷ []) = omega arith
pop_back-room (e ∷ f ∷ es) = omega (arith, pop_back-room (f ∷ es))

pop_back-length : (e : Entry) (es : List Entry) → length (pop_back (e ∷ es)) ≡ length es
unfolding pop_back
pop_back-length e [] = refl
pop_back-length e (f ∷ es) = omega (arith, pop_back-length f es)

fit-pop_back :
    (limit : ℕ) (es : List Entry) → limit < table_room es → fit limit (pop_back es) ≡ fit limit es
unfolding pop_back
fit-pop_back limit [] h = refl
fit-pop_back limit (e ∷ []) h = ground arith
fit-pop_back limit (e ∷ f ∷ es) h = elim (Bool-cases (leb (nv_room e.nv) limit)) [
  | inl y ↦
      let room = leb→le (nv_room e.nv) limit y in
      rw y (ap (◌∷◌ e) (fit-pop_back (limit - nv_room e.nv) (f ∷ es) (omega arith)))
  | inr n ↦ rw n refl
]

nonempty_room : (es : List Entry) → 0 < length es → 0 < table_room es
nonempty_room [] h = absurd (omega arith)
nonempty_room (e ∷ es) h = omega arith

pop_back-shorter : (es : List Entry) → length (pop_back es) ≤ length es - 1
unfolding pop_back
pop_back-shorter [] = omega arith
pop_back-shorter (e ∷ es) = omega (arith, pop_back-length e es)

-- What the loop of the eviction leaves.
record Evicted (room : ℕ) (c c' : Context) : Type 0 where
  pub table : c'.hd_table ≡ fit (c.hd_table_bufsize_max - room) c.hd_table
  pub size : c'.hd_table_bufsize ≡ table_room c'.hd_table
  pub limit : c'.hd_table_bufsize_max ≡ c.hd_table_bufsize_max

fit-none : (limit : ℕ) (es : List Entry) → length es ≤ 0 → fit limit es ≡ es
fit-none limit [] h = refl
fit-none limit (e ∷ es) h = absurd (omega arith)

evict-Evicted :
    (fuel room : ℕ) (c : Context)
    → length c.hd_table ≤ fuel
    → c.hd_table_bufsize ≡ table_room c.hd_table
    → Evicted room c (evict fuel room c)
unfolding evict
evict-Evicted zero room c h s = record {
  table = sym (fit-none _ c.hd_table h);
  size = s;
  limit = refl;
}
evict-Evicted (suc fuel) room c h s =
    let max = c.hd_table_bufsize_max in
    let shorter = pop_back-shorter c.hd_table in
    let less = pop_back-room c.hd_table in
    let later = evict-Evicted fuel room (evict_one c) (omega arith) (omega arith) in
    elim (Bool-cases (ltb max (c.hd_table_bufsize + room))) [
      | inl y ↦ elim (Bool-cases (ltb 0 (length c.hd_table))) [
        | inl z ↦
            let some = nonempty_room c.hd_table (ltb→lt 0 _ z) in
            let over : max - room < table_room c.hd_table = omega (arith, ltb→lt max _ y) in
            rw (y, z)
              (record {
                table = later.table ∙ fit-pop_back (max - room) c.hd_table over;
                size = later.size;
                limit = later.limit;
              })
        | inr n ↦
            rw (y, n)
              (record {
                table = sym (fit-none (max - room) c.hd_table (ltb→ge 0 _ n));
                size = s;
                limit = refl;
              })
      ]
      | inr n ↦ rw n (record {
        table = sym (
            fit_all (max - room) c.hd_table
              (omega (arith, ltb→ge max (c.hd_table_bufsize + room) n)));
        size = s;
        limit = refl;
      })
    ]

Evicted-small :
    (room : ℕ) (c c' : Context)
    → Evicted room c c'
    → c'.hd_table_bufsize ≤ c.hd_table_bufsize_max - room
Evicted-small room c c' e =
    let small = fit_small (c.hd_table_bufsize_max - room) c.hd_table in
    let size = ap table_room e.table in omega (arith, e.size)

Evicted-IsTable : (room : ℕ) (c c' : Context) → Evicted room c c' → IsTable c'
Evicted-IsTable room c c' e = record {
  size = e.size;
  small = omega (arith, Evicted-small room c c' e, e.limit);
}

-- After the limit was lowered, the shrunk table is the longest part of the old one, from the newest
-- entry on, that fits the limit, and its recorded size is its size.
pub hd_context_shrink_table_size_lem :
    (c : Context)
    → c.hd_table_bufsize ≡ table_room c.hd_table
    → ((hd_context_shrink_table_size c).hd_table ≡ fit c.hd_table_bufsize_max c.hd_table)
      × IsTable (hd_context_shrink_table_size c)
unfolding hd_context_shrink_table_size
hd_context_shrink_table_size_lem c s =
    let e = evict-Evicted (length c.hd_table) 0 c (omega arith) s in
    let same : c.hd_table_bufsize_max - 0 ≡ c.hd_table_bufsize_max = omega arith in
    (e.table ∙ ap (λ l. fit l c.hd_table) same, Evicted-IsTable 0 c _ e)

-- A table in order stays in order when a pair is added, whether or not the allocator serves. The old
-- entries that stay are the longest part, from the newest on, that leaves room for the pair; where
-- the allocator serves, the entry is returned, and it stands in front unless it is over the limit.
pub add_hd_table_incremental_lem :
    (served grown : Bool) (c : Context) (nv : Nv) (token : Option ℕ) (flags : ℕ)
    → IsTable c
    → (let kept = fit (c.hd_table_bufsize_max - nv_room nv) c.hd_table in
        let new_ent : Entry = record { nv = nv; token = token; flags = flags } in
        let (ent, c') = add_hd_table_incremental served grown c nv token flags in
        IsTable c'
        × ((served && (ltb c.hd_table_bufsize_max (nv_room nv) || grown) ≡ true)
              × (ent ≡ some new_ent)
              × (c'.hd_table
                  ≡ (if ltb c.hd_table_bufsize_max (nv_room nv) then kept else new_ent ∷ kept))
            ⊎ (served && (ltb c.hd_table_bufsize_max (nv_room nv) || grown) ≡ false)
              × (ent ≡ none)
              × (c'.hd_table ≡ kept)))
unfolding add_hd_table_incremental
add_hd_table_incremental_lem false grown c nv token flags t =
    let e = evict-Evicted (length c.hd_table) (nv_room nv) c (omega arith) t.size in
    (Evicted-IsTable (nv_room nv) c _ e, inr (refl, refl, e.table))
add_hd_table_incremental_lem true grown c nv token flags t =
    let room = nv_room nv in
    let e = evict-Evicted (length c.hd_table) room c (omega arith) t.size in
    let c1 = evict (length c.hd_table) room c in
    let order = Evicted-IsTable room c c1 e in
    let small = Evicted-small room c c1 e in
    let new_ent : Entry = record { nv = nv; token = token; flags = flags } in
    elim (Bool-cases (ltb c.hd_table_bufsize_max room)) [
      | inl y ↦
          let y1 : ltb c1.hd_table_bufsize_max room ≡ true = rw e.limit y in
          rw (y1, y) (order, inl (refl, refl, e.table))
      | inr n ↦
          let n1 : ltb c1.hd_table_bufsize_max room ≡ false = rw e.limit n in
          elim (Bool-cases grown) [
            | inl g ↦
                rw (n1, n, g)
                  (
                    record {
                      size = omega (arith, e.size);
                      small = omega (arith, e.limit, ltb→ge c.hd_table_bufsize_max room n);
                    },
                    inl (refl, refl, ap (◌∷◌ new_ent) e.table),
                  )
            | inr g ↦ rw (n1, n, g) (order, inr (refl, refl, e.table))
          ]
    ]
