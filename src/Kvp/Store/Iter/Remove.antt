-- ===== src/Kvp/Store/Iter/Remove.antt =====
-- `remove_current` in a well-formed pool.
use azure_init.Prelude.{
  ℕ, suc, ◌+◌, ◌*◌, ◌-◌, ◌≡◌, refl, ap, ◌∙◌, true, false, List, [], ◌∷◌, ◌++◌, arith, ◌==◌, Bytes,
  length, length-append, append_assoc,
}
use azure_init.Kvp.Store.Policy.{record_size}
use azure_init.Kvp.Store.World.{World, read_exact, seek_start, write_all, set_len}
use azure_init.Kvp.Store.World.Ends.{Ends, Ends-bind}
use azure_init.Kvp.Store.World.Sees.{
  Sees, Sees-cast, seek_start_lem, read_exact_lem, write_over_lem, set_len_lem,
}
use azure_init.Kvp.Store.Iter.{KvpPoolIter, fill_slot, remove_current}
use azure_init.Kvp.Store.Iter.Cells.{Cell, bytes_of_cells, bytes-append, length-block, length-bytes}
use azure_init.Kvp.Store.Iter.Moved.{last_of, init_of, moved, init_last, length-init_of}
use azure_init.Kvp.Store.Iter.Stands.{Yielded, Stands}

-- The last record, where the pool is cut before it.
split_last :
    (seen : List Cell) (c d : Cell) (rest : List Cell)
    → bytes_of_cells seen ++ (c.block ++ bytes_of_cells (d ∷ rest))
      ≡ (bytes_of_cells seen ++ (c.block ++ bytes_of_cells (init_of d rest)))
        ++ ((last_of d rest).block ++ [])
split_last seen c d rest =
    ap (λ t. bytes_of_cells seen ++ (c.block ++ t))
      (ap bytes_of_cells (init_last d rest) ∙ bytes-append (init_of d rest) (last_of d rest ∷ []))
    ∙ simp append_assoc

-- The bytes once the last record has been copied over `c`.
abbrev copied : List Cell → Cell → List Cell → Bytes
copied seen d rest =
    bytes_of_cells seen
    ++ ((last_of d rest).block
        ++ (bytes_of_cells (init_of d rest) ++ ((last_of d rest).block ++ [])))

fill_slot_lem :
    (seen : List Cell) (c d : Cell) (rest : List Cell) (it : KvpPoolIter) (w : World) (n m : ℕ)
    → Yielded seen c (d ∷ rest) it w
    → n ≡ length seen
    → m ≡ length seen + suc (length rest)
    → Ends
        (λ it' w'.
          (it' ≡ record it { current_index = n }) × Sees (copied seen d rest) (n * record_size) w')
        (fill_slot n m it w)
unfolding fill_slot
fill_slot_lem seen c d rest it w n m y hn hm =
    let differ : (n == m) ≡ false = ground arith in
    let whole : Bytes = bytes_of_cells seen ++ (c.block ++ bytes_of_cells (d ∷ rest)) in
    let last : Cell = last_of d rest in
    rw differ (
      Ends-bind (λ _ w'. Sees whole (m * record_size) w') _ (seek_start (m * record_size)) _ w
        (seek_start_lem y.sees (m * record_size))
        (λ _ w1 s1.
          Ends-bind (λ b w'. (b ≡ last.block) × Sees whole (m * record_size + record_size) w') _
            (read_exact record_size) _ w1
            (read_exact_lem s1 (bytes_of_cells seen ++ (c.block ++ bytes_of_cells (init_of d rest)))
              last.block [] record_size (split_last seen c d rest)
              (omega (
                arith,
                length-append (bytes_of_cells seen) (c.block ++ bytes_of_cells (init_of d rest)),
                length-append c.block (bytes_of_cells (init_of d rest)),
                length-bytes seen,
                length-bytes (init_of d rest),
                length-init_of d rest,
                length-block c,
              ))
              (length-block last))
            (λ b w2 q. rw (q.0) (
              Ends-bind (λ _ w'. Sees whole (n * record_size) w') _ (seek_start (n * record_size)) _
                w2 (seek_start_lem q.1 (n * record_size))
                (λ _ w3 s3.
                  Ends-bind
                    (λ _ w'. Sees (copied seen d rest) (n * record_size + length last.block) w') _
                    (write_all last.block) _ w3
                    (write_over_lem s3 (bytes_of_cells seen) c.block
                      (bytes_of_cells (init_of d rest) ++ (last.block ++ [])) last.block
                      (split_last seen c d rest ∙ simp append_assoc)
                      (omega (arith, length-bytes seen))
                      (omega (arith, length-block c, length-block last)))
                    (λ _ w4 s4.
                      Ends-bind (λ _ w'. Sees (copied seen d rest) (n * record_size) w') _
                        (seek_start (n * record_size)) _ w4 (seek_start_lem s4 (n * record_size))
                        (λ _ w5 s5. (refl, s5))))))))

-- Removing the last record cuts it off; removing another one moves the last one into its place.
pub remove_current_lem :
    (seen : List Cell) (c : Cell) (rest : List Cell) (it : KvpPoolIter) (w : World)
    → Yielded seen c rest it w
    → Ends (λ it' w'. Stands seen (moved rest) it' w') (remove_current it w)
unfolding remove_current
remove_current_lem seen c [] it w y =
    let some_read : (it.current_index == 0) ≡ false = ground arith in
    let last : (it.current_index - 1 == it.record_count - 1) ≡ true = ground arith in
    rw (some_read, last)
      (Ends-bind _ _ (set_len ((it.record_count - 1) * record_size)) _ w
        (set_len_lem y.sees (bytes_of_cells seen) (c.block ++ [])
          ((it.record_count - 1) * record_size) refl (omega (arith, length-bytes seen)))
        (λ _ w' s. record {
          count = omega (arith, y.count);
          past = omega (arith, y.count, y.index);
          cursor = suc (length seen) * record_size;
          sees = s;
        }))
remove_current_lem seen c (d ∷ rest) it w y =
    let some_read : (it.current_index == 0) ≡ false = ground arith in
    let n : ℕ = it.current_index - 1 in
    let m : ℕ = it.record_count - 1 in
    let last : Cell = last_of d rest in
    rw some_read (
      Ends-bind
        (λ it' w'.
          (it' ≡ record it { current_index = n }) × Sees (copied seen d rest) (n * record_size) w')
        _ (fill_slot n m it) _ w
        (fill_slot_lem seen c d rest it w n m y (omega arith) (omega arith))
        (λ it' w1 q.
          Ends-bind _ _ (set_len (m * record_size)) _ w1
            (set_len_lem q.1
              (bytes_of_cells seen ++ (last.block ++ bytes_of_cells (init_of d rest)))
              (last.block ++ []) (m * record_size) (simp append_assoc)
              (omega (
                arith,
                length-append (bytes_of_cells seen) (last.block ++ bytes_of_cells (init_of d rest)),
                length-append last.block (bytes_of_cells (init_of d rest)),
                length-bytes seen,
                length-bytes (init_of d rest),
                length-init_of d rest,
                length-block last,
              )))
            (λ _ w2 s. record {
              count =
                  ap (λ (i : KvpPoolIter). i.record_count - 1) q.0
                  ∙ omega (arith, length-init_of d rest);
              index = ap (λ (i : KvpPoolIter). i.current_index) q.0 ∙ omega arith;
              sees = Sees-cast s refl (omega arith);
            })))
