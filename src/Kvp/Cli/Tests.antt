-- ===== src/Kvp/Cli/Tests.antt =====
-- The commands of the tool applied to a pool of three records.
use azure_init.Prelude.{
  ◌≡◌, ◌≤◌, refl, false, [], ◌∷◌, arith, codes, All, length, contains, contains-Lacks, bytes_eq,
}
use azure_init.Result.{ok}
use azure_init.Utf8.{is_utf8}
use azure_init.Text.{split_once}
use azure_init.Kvp.Store.Policy.{
  safe, max_key_size, max_value_size, validate_key, validate_value, max_unique_keys,
}
use azure_init.Kvp.Store.KeySet.{distinct_keys, set_insert}
use azure_init.Kvp.Store.Record.{Entry}
use azure_init.Kvp.Store.World.Ends.{Ends}
use azure_init.Kvp.Store.Pool.Rules.{Contains}
use azure_init.Kvp.Store.Pool.Appends.{Accepted}
use azure_init.Kvp.Store.Tests.{first, second, third, three, pool, pool-Contains, first-Accepted}
use azure_init.Kvp.Cli.{quietly, parse_supporting_data, dump_command, strip_return}
use azure_init.Kvp.Cli.Lines.{Printable, load_printed, load_from_reader-dump_command}

pair_unquoted :
    parse_supporting_data (codes "k='a,b',j=c'd,")
    ≡ ok ((codes "k", codes "a,b") ∷ (codes "j", codes "c'd") ∷ [])
unfolding parse_supporting_data split_once
pair_unquoted = refl

second-Accepted : Accepted safe second
unfolding validate_key validate_value is_utf8 contains max_key_size max_value_size
second-Accepted = record {
  key_valid = refl;
  value_valid = refl;
  key_utf8 = refl;
  value_utf8 = refl;
}

third-Accepted : Accepted safe third
unfolding validate_key validate_value is_utf8 contains max_key_size max_value_size
third-Accepted = record { key_valid = refl; value_valid = refl; key_utf8 = refl; value_utf8 = refl }

plain :
    (e : Entry)
    → contains b'=' e.0 ≡ false
    → contains b'\n' e.0 ≡ false
    → contains b'\n' e.1 ≡ false
    → strip_return e.1 ≡ e.1
    → Printable e
plain e a b c d = record {
  key_plain = contains-Lacks b'=' e.0 a;
  key_line = contains-Lacks b'\n' e.0 b;
  value_line = contains-Lacks b'\n' e.1 c;
  kept = d;
}

three-Printable : All Printable three
unfolding contains strip_return
three-Printable = (
  plain first refl refl refl refl,
  (plain second refl refl refl refl, (plain third refl refl refl refl, tt)),
)

two_keys : length (distinct_keys three []) ≤ max_unique_keys
unfolding distinct_keys set_insert bytes_eq
two_keys = omega arith

load_from_reader-dump_command_example :
    Ends
      (λ r v'. Ends (λ s w'. (s ≡ ok quietly) × Contains three w') (load_printed safe r pool))
      (dump_command pool)
load_from_reader-dump_command_example =
    load_from_reader-dump_command safe three three pool pool three-Printable
      (first-Accepted, (second-Accepted, (third-Accepted, tt))) two_keys pool-Contains pool-Contains
