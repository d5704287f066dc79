-- ===== src/Kvp/Store/World/Sees.antt =====
-- Each system call on a file whose bytes are known, where no call fails.
use azure_init.Prelude.{
  ℕ, ◌+◌, ◌≡◌, refl, sym, ap, ◌∙◌, subst, ltb, false, some, [], ◌++◌, arith, Bytes, length, drop,
  length-append, take-append, drop-append,
}
use azure_init.Prelude.Int.{ℤ}
use mathlib.Core.Path.{ap₂, subst₂}
use azure_init.Kvp.Store.World.{
  rewrite, stat_file, syscall-quiet, bytes_of, File, World, metadata, write_at, resize, write_all,
  read_exact, seek_start, seek_end, stream_position, set_len, flush,
}
use azure_init.Kvp.Store.World.Ends.{Ends}
use azure_init.Kvp.Store.World.Layout.{write_at_over, write_at_end, resize-append}

-- No call fails from here on, and the file is there with these bytes.
pub record Sees (content : Bytes) (cursor : ℕ) (w : World) : Type 0 where
  pub quiet : w.faults ≡ []
  pub mtime : ℤ
  pub file : w.file ≡ some (record { content = content; mtime = mtime })
  pub here : w.cursor ≡ cursor

-- The file's bytes replaced, in a world whose file is there.
Sees-rewrite :
    {c : ℕ} {f : File} (w : World) (bytes : Bytes)
    → w.faults ≡ []
    → w.file ≡ some f
    → w.cursor ≡ c
    → Sees bytes c (rewrite w.file bytes w)
Sees-rewrite {c} w bytes q e h =
    subst (λ o. Sees bytes c (rewrite o bytes w)) (sym e)
      (record { quiet = q; mtime = w.now; file = refl; here = h })

pub Sees-cast : {t t' : Bytes} {c c' : ℕ} {w : World} → Sees t c w → t ≡ t' → c ≡ c' → Sees t' c' w
Sees-cast {w = w} s e h = subst₂ (λ x y. Sees x y w) e h s

module _ {content : Bytes} {c : ℕ} {w : World} (s : Sees content c w) where
  contents : bytes_of w.file ≡ content
  contents = ap bytes_of s.file

  pub seek_start_lem : (offset : ℕ) → Ends (λ _ w'. Sees content offset w') (seek_start offset w)
  unfolding seek_start
  seek_start_lem offset =
      rw (syscall-quiet _ _ w s.quiet)
        (record { quiet = s.quiet; mtime = s.mtime; file = s.file; here = refl })

  pub seek_end_lem :
      Ends (λ n w'. (n ≡ length content) × Sees content (length content) w') (seek_end w)
  unfolding seek_end
  seek_end_lem = rw (syscall-quiet _ _ w s.quiet) (
    ap length contents,
    record { quiet = s.quiet; mtime = s.mtime; file = s.file; here = ap length contents },
  )

  pub stream_position_lem : Ends (λ n w'. (n ≡ c) × Sees content c w') (stream_position w)
  unfolding stream_position
  stream_position_lem = rw (syscall-quiet _ _ w s.quiet) (s.here, s)

  pub flush_lem : Ends (λ _ w'. Sees content c w') (flush w)
  unfolding flush
  flush_lem = rw (syscall-quiet _ _ w s.quiet) s

  pub read_exact_lem :
      (before block after : Bytes) (n : ℕ)
      → content ≡ before ++ (block ++ after)
      → length before ≡ c
      → length block ≡ n
      → Ends (λ b w'. (b ≡ block) × Sees content (c + n) w') (read_exact n w)
  unfolding read_exact
  read_exact_lem before block after n e hc hn =
      let rest : drop w.cursor (bytes_of w.file) ≡ block ++ after =
        ap₂ drop s.here (contents ∙ e) ∙ drop-append c before (block ++ after) hc in
      let enough : ltb (length (block ++ after)) n ≡ false =
        ground (arith, length-append block after) in
      rw (syscall-quiet _ _ w s.quiet, rest, enough)
        (
          take-append n block after hn,
          record { quiet = s.quiet; mtime = s.mtime; file = s.file; here = ap (λ k. k + n) s.here },
        )

  pub write_over_lem :
      (before middle after bytes : Bytes)
      → content ≡ before ++ (middle ++ after)
      → length before ≡ c
      → length middle ≡ length bytes
      → Ends (λ _ w'. Sees (before ++ (bytes ++ after)) (c + length bytes) w') (write_all bytes w)
  unfolding write_all
  write_over_lem before middle after bytes e hc hm =
      let out : write_at w.cursor bytes (bytes_of w.file) ≡ before ++ (bytes ++ after) =
        ap₂ (λ k t. write_at k bytes t) s.here (contents ∙ e)
        ∙ write_at_over c before middle after bytes hc hm in
      rw (syscall-quiet _ _ w s.quiet) (
        subst
          (λ t. Sees t (c + length bytes) (
            rewrite w.file (write_at w.cursor bytes (bytes_of w.file))
              (record w { cursor = w.cursor + length bytes })))
          out
          (Sees-rewrite (record w { cursor = w.cursor + length bytes }) _ s.quiet s.file
            (ap (λ k. k + length bytes) s.here)))

  pub write_end_lem :
      (bytes : Bytes)
      → length content ≡ c
      → Ends (λ _ w'. Sees (content ++ bytes) (c + length bytes) w') (write_all bytes w)
  unfolding write_all
  write_end_lem bytes hc =
      let out : write_at w.cursor bytes (bytes_of w.file) ≡ content ++ bytes =
        ap₂ (λ k t. write_at k bytes t) s.here contents ∙ write_at_end c content bytes hc in
      rw (syscall-quiet _ _ w s.quiet) (
        subst
          (λ t. Sees t (c + length bytes) (
            rewrite w.file (write_at w.cursor bytes (bytes_of w.file))
              (record w { cursor = w.cursor + length bytes })))
          out
          (Sees-rewrite (record w { cursor = w.cursor + length bytes }) _ s.quiet s.file
            (ap (λ k. k + length bytes) s.here)))

  pub set_len_lem :
      (before after : Bytes) (n : ℕ)
      → content ≡ before ++ after
      → length before ≡ n
      → Ends (λ _ w'. Sees before c w') (set_len n w)
  unfolding set_len
  set_len_lem before after n e hn =
      let out : resize n (bytes_of w.file) ≡ before =
        ap (resize n) (contents ∙ e) ∙ resize-append n before after hn in
      rw (syscall-quiet _ _ w s.quiet) (
        subst (λ t. Sees t c (rewrite w.file (resize n (bytes_of w.file)) w)) out
          (Sees-rewrite w _ s.quiet s.file s.here))

  pub metadata_lem :
      Ends
        (λ info w'. (info.len ≡ length content) × (info.mtime ≡ s.mtime) × Sees content c w')
        (metadata w)
  unfolding metadata
  metadata_lem = rw (syscall-quiet _ _ w s.quiet) (
      subst
        (λ o.
          Ends (λ info w'. (info.len ≡ length content) × (info.mtime ≡ s.mtime) × Sees content c w')
            (stat_file o w))
        (sym s.file) (refl, refl, s))
