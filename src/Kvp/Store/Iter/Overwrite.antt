-- ===== src/Kvp/Store/Iter/Overwrite.antt =====
-- `overwrite_current_value` in a well-formed pool.
use azure_init.Prelude.{
  ◌+◌, ◌*◌, ◌-◌, ◌≡◌, sym, ap, ◌∙◌, false, List, ◌++◌, arith, ◌==◌, Bytes, length, length-append,
  append_assoc, take, drop, take-append-drop, length-drop, length-take,
}
use azure_init.Kvp.Store.Policy.{wire_max_key_bytes, wire_max_value_bytes, record_size}
use azure_init.Kvp.Store.Record.{zero_padded}
use azure_init.Kvp.Store.Record.RoundTrip.{Fits, length-zero_padded}
use azure_init.Kvp.Store.World.{World, seek_start, write_all}
use azure_init.Kvp.Store.World.Ends.{Ends, Ends-bind, Ends-map}
use azure_init.Kvp.Store.World.Sees.{Sees, Sees-cast, seek_start_lem, write_over_lem}
use azure_init.Kvp.Store.Iter.{KvpPoolIter, overwrite_current_value}
use azure_init.Kvp.Store.Iter.Cells.{
  Cell, bytes_of_cells, length-block, length-bytes, overwritten, block-overwritten,
}
use azure_init.Kvp.Store.Iter.Stands.{Yielded}

split_key :
    (c : Cell) (before after : Bytes)
    → before ++ (c.block ++ after)
      ≡ (before ++ take wire_max_key_bytes c.block) ++ (drop wire_max_key_bytes c.block ++ after)
split_key c before after =
    ap (λ t. before ++ (t ++ after)) (sym (take-append-drop wire_max_key_bytes c.block))
    ∙ simp append_assoc

-- The value field of the current record is written anew, and nothing else changes.
pub overwrite_current_value_lem :
    (seen : List Cell) (c : Cell) (rest : List Cell) (it : KvpPoolIter) (w : World) (v : Bytes)
    (f : Fits wire_max_value_bytes v)
    → Yielded seen c rest it w
    → Ends (λ _ w'. Yielded seen (overwritten c v f) rest it w') (overwrite_current_value it v w)
unfolding overwrite_current_value
overwrite_current_value_lem seen c rest it w v f y =
    let some_read : (it.current_index == 0) ≡ false = ground arith in
    let start : (it.current_index - 1) * record_size + wire_max_key_bytes
        ≡ length seen * record_size + wire_max_key_bytes =
      ap (λ k. (k - 1) * record_size + wire_max_key_bytes) y.index ∙ omega arith in
    rw (some_read, start)
      (Ends-bind
        (λ _ w'.
          Sees (bytes_of_cells seen ++ (c.block ++ bytes_of_cells rest))
            (length seen * record_size + wire_max_key_bytes) w')
        _ (seek_start (length seen * record_size + wire_max_key_bytes)) _ w
        (seek_start_lem y.sees (length seen * record_size + wire_max_key_bytes))
        (λ _ w' s.
          Ends-map _ _ (write_all (zero_padded wire_max_value_bytes v)) w'
            (λ _ w'' t. record {
              count = y.count;
              index = y.index;
              sees =
                  Sees-cast t (simp (block-overwritten c v f, append_assoc))
                    (omega (arith, length-zero_padded wire_max_value_bytes v));
            })
            (write_over_lem s (bytes_of_cells seen ++ take wire_max_key_bytes c.block)
              (drop wire_max_key_bytes c.block) (bytes_of_cells rest)
              (zero_padded wire_max_value_bytes v)
              (split_key c (bytes_of_cells seen) (bytes_of_cells rest))
              (omega (
                arith,
                length-append (bytes_of_cells seen) (take wire_max_key_bytes c.block),
                length-bytes seen,
                length-take wire_max_key_bytes c.block,
                length-block c,
              ))
              (omega (
                arith,
                length-drop wire_max_key_bytes c.block,
                length-block c,
                length-zero_padded wire_max_value_bytes v,
              )))))
