-- ===== src/Kvp/Store/Iter/Stands.antt =====
-- Where the iterator stands in a well-formed pool, and what each of its operations does there.
use azure_init.Prelude.{
  ℕ, suc, ◌+◌, ◌*◌, ◌≤◌, ◌≡◌, refl, sym, false, none, some, List, [], ◌∷◌, ◌++◌, arith, leb, length,
  length-append, append_assoc, append-nil,
}
use azure_init.Result.{ok}
use azure_init.Kvp.Store.Policy.{record_size}
use azure_init.Kvp.Store.World.{World, read_exact}
use azure_init.Kvp.Store.World.Ends.{Ends, Ends-bind}
use azure_init.Kvp.Store.World.Sees.{Sees, Sees-cast, read_exact_lem}
use azure_init.Kvp.Store.Iter.{KvpPoolIter, next}
use azure_init.Kvp.Store.Iter.Cells.{Cell, bytes_of_cells, bytes-append, length-block, length-bytes}

-- All records have been seen; the index may have passed the count.
pub record AtEnd (cells : List Cell) (it : KvpPoolIter) (w : World) : Type 0 where
  pub count : it.record_count ≡ length cells
  pub past : it.record_count ≤ it.current_index
  pub cursor : ℕ
  pub sees : Sees (bytes_of_cells cells) cursor w

-- The iterator is before `c`, and the cursor with it.
pub record Before (seen : List Cell) (c : Cell) (rest : List Cell) (it : KvpPoolIter) (w : World)
    : Type 0 where
  pub count : it.record_count ≡ length seen + suc (length rest)
  pub index : it.current_index ≡ length seen
  pub sees :
      Sees (bytes_of_cells seen ++ (c.block ++ bytes_of_cells rest)) (length seen * record_size) w

-- `next` has just returned `c`.
pub record Yielded (seen : List Cell) (c : Cell) (rest : List Cell) (it : KvpPoolIter) (w : World)
    : Type 0 where
  pub count : it.record_count ≡ length seen + suc (length rest)
  pub index : it.current_index ≡ suc (length seen)
  pub sees :
      Sees
        (bytes_of_cells seen ++ (c.block ++ bytes_of_cells rest))
        (suc (length seen) * record_size)
        w

abbrev pub Stands : List Cell → List Cell → KvpPoolIter → World → Type 0
Stands seen [] it w = AtEnd seen it w
Stands seen (c ∷ rest) it w = Before seen c rest it w

pub next_end :
    (cells : List Cell) (it : KvpPoolIter) (w : World)
    → AtEnd cells it w
    → next it w ≡ (ok (none, it), w)
unfolding next
next_end cells it w a = ground arith

pub next_cell :
    (seen : List Cell) (c : Cell) (rest : List Cell) (it : KvpPoolIter) (w : World)
    → Before seen c rest it w
    → Ends (λ r w'. (r.0 ≡ some c.entry) × Yielded seen c rest r.1 w') (next it w)
unfolding next
next_cell seen c rest it w b =
    let more : leb it.record_count it.current_index ≡ false = ground arith in
    rw more (
      Ends-bind
        (λ block w'.
          (block ≡ c.block)
          × Sees (bytes_of_cells seen ++ (c.block ++ bytes_of_cells rest))
              (length seen * record_size + record_size) w')
        _ (read_exact record_size) _ w
        (read_exact_lem b.sees (bytes_of_cells seen) c.block (bytes_of_cells rest) record_size refl
          (length-bytes seen) (length-block c))
        (λ block w' q.
          rw (q.0, c.decodes)
            (
              refl,
              record {
                count = b.count;
                index = omega (arith, b.index);
                sees = Sees-cast q.1 refl (omega arith);
              },
            )))

-- Going on behind the record that was returned.
pub Yielded-Stands :
    (seen : List Cell) (c : Cell) (rest : List Cell) (it : KvpPoolIter) (w : World)
    → Yielded seen c rest it w
    → Stands (seen ++ c ∷ []) rest it w
Yielded-Stands seen c [] it w y = record {
  count = omega (arith, y.count, length-append seen (c ∷ []));
  past = omega arith;
  cursor = suc (length seen) * record_size;
  sees = Sees-cast y.sees (sym (bytes-append seen (c ∷ []))) refl;
}
Yielded-Stands seen c (d ∷ rest) it w y = record {
  count = omega (arith, length-append seen (c ∷ []));
  index = omega (arith, length-append seen (c ∷ []));
  sees =
      Sees-cast y.sees (simp (bytes-append seen (c ∷ []), append_assoc, append-nil))
        (omega (arith, length-append seen (c ∷ [])));
}
