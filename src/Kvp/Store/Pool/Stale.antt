-- ===== src/Kvp/Store/Pool/Stale.antt =====
-- `is_stale` and `clear_if_stale`: the pool file's modification time against the boot time.
use azure_init.Prelude.{
  ◌≡◌, refl, sym, ap, ◌∙◌, subst, Bool, true, false, Option, none, some, List, [], inl, inr,
  if◌then◌else◌,
}
use azure_init.Prelude.Int.{ℤ, leb_ℤ}
use azure_init.Result.{ok}
use azure_init.Kvp.Store.Record.{Entry}
use azure_init.Kvp.Store.World.{
  File, World, Io, exclusive, syscall-quiet, stat, stat_file, fresh_handle, boot_time,
  path_metadata, metadata, set_len, open_read_write, flock_exclusive, fcntl_exclusive, ◌>>=◌, ◌>>◌,
  pure, close,
}
use azure_init.Kvp.Store.World.Ends.{Ends}
use azure_init.Kvp.Store.World.Sees.{Sees, set_len_lem}
use azure_init.Kvp.Store.Iter.{lock_for_writing}
use azure_init.Kvp.Store.Iter.Cells.{Cell, bytes_of_cells, entries_of}
use azure_init.Kvp.Store.Pool.{is_stale, clear_if_stale, scoped}
use azure_init.Kvp.Store.Pool.Rules.{Contains, Holds-of, Ends-scoped}

-- There is a file, and it was last modified no later than the boot.
abbrev pub older_than : Option File → ℤ → Bool
older_than none boot = false
older_than (some f) boot = leb_ℤ f.mtime boot

-- The same world, with what is known of it written out.
known :
    {f : Option File} (w : World)
    → w.file ≡ f
    → w.faults ≡ []
    → w ≡ record w { file = f; faults = [] }
known w e q = λ i. record w { file = e i; faults = q i }

-- What both operations do in a world.
abbrev Ages : List Entry → World → Type 0
Ages es w =
    (is_stale w ≡ (ok (older_than w.file w.boot), w))
    × Ends (λ _ w'. Contains (if older_than w.file w.boot then [] else es) w') (clear_if_stale w)

cleared :
    (cells : List Cell) (f : File) (w : World) (b : Bool)
    → f.content ≡ bytes_of_cells cells
    → w.faults ≡ []
    → w.file ≡ some f
    → Ends
        (λ _ w'. Contains (if b then [] else entries_of cells) w')
        (scoped (if b then set_len 0 else pure tt) w)
cleared cells f w true c q e =
    let s : Sees (bytes_of_cells cells) w.cursor w = record {
      quiet = q;
      mtime = f.mtime;
      file = e ∙ ap (λ t. some (record { content = t; mtime = f.mtime })) c;
      here = refl;
    } in
    Ends-scoped (λ _ w'. Sees [] w.cursor w') (λ _ w'. Contains [] w') (set_len 0) w
      (set_len_lem s [] (bytes_of_cells cells) 0 refl refl)
      (λ _ w1 t. inl (Holds-of [] [] w1 refl (w.cursor, t)))
cleared cells f w false c q e = inl (record {
  cells = cells;
  read_as = refl;
  stores = record {
    quiet = q;
    mtime = f.mtime;
    file = e ∙ ap (λ t. some (record { content = t; mtime = f.mtime })) c;
  };
})

Ages-file :
    (cells : List Cell) (f : File) (w : World)
    → f.content ≡ bytes_of_cells cells
    → Ages (entries_of cells) (record w { file = some f; faults = [] })
unfolding is_stale clear_if_stale boot_time path_metadata open_read_write lock_for_writing
    flock_exclusive fcntl_exclusive metadata azure_init.Kvp.Store.World.syscall
Ages-file cells f w c = (
  refl,
  cleared cells f
      (record w {
        file = some f;
        faults = [];
        cursor = 0;
        flock = some exclusive;
        fcntl = some exclusive;
      })
      (leb_ℤ f.mtime w.boot) c refl refl,
)

Ages-none : (w : World) → Ages [] (record w { file = none; faults = [] })
unfolding is_stale clear_if_stale open_read_write path_metadata azure_init.Kvp.Store.World.syscall
Ages-none w = (refl, inr (refl, record { quiet = refl; file = refl }))

-- `is_stale` says whether there is a file that was last modified no later than the boot, and
-- `clear_if_stale` removes all records in that case and none in the other.
-- The pool file is well-formed or absent, and no call fails.
pub clear_if_stale-is_stale :
    (es : List Entry) (w : World)
    → Contains es w
    → (is_stale w ≡ (ok (older_than w.file w.boot), w))
      × Ends (λ _ w'. Contains (if older_than w.file w.boot then [] else es) w') (clear_if_stale w)
clear_if_stale-is_stale es w (inl h) =
    subst (λ t. Ages t w) h.read_as
      (subst (Ages (entries_of h.cells)) (sym (known w h.stores.file h.stores.quiet)) (
        Ages-file h.cells (record { content = bytes_of_cells h.cells; mtime = h.stores.mtime }) w
          refl))
clear_if_stale-is_stale es w (inr (e, a)) =
    subst (λ t. Ages t w) (sym e) (subst (Ages []) (sym (known w a.file a.quiet)) (Ages-none w))
