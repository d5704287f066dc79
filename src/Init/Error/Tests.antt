-- ===== src/Init/Error/Tests.antt =====
-- The theorems about the agent's reports applied to a timeout and to a success.
use azure_init.Prelude.{
  ◌≡◌, refl, some, List, arith, Bytes, codes, contains, contains-Lacks, bytes_eq,
}
use azure_init.Result.{ok}
use azure_init.Utf8.{is_utf8}
use azure_init.Kvp.Store.Record.{Entry}
use azure_init.Kvp.Report.{
  from_str, report_fields, result_str, pps_str, has_field, failure_report, success_report,
  with_documentation_url,
}
use azure_init.Kvp.Report.RoundTrip.{Storable}
use azure_init.Kvp.Report.Tests.{stand_in, stand_in-CsvLaws}
use azure_init.Init.Error.{
  Error, timeout, reason, supporting_data, as_encoded_report, encoded_success_report,
}
use azure_init.Init.Error.Reports.{
  error_report, ready_report, from_str-as_encoded_report, from_str-encoded_success_report,
}

abbrev display : Error → Bytes
display e = codes "A timeout error occurred"

abbrev same_order : List Entry → List Entry
same_order es = es

abbrev version : Bytes
version = codes "0.1.1"

timeout-Storable :
    Storable stand_in
      (error_report stand_in version (codes "now") display same_order timeout (codes "vm"))
unfolding report_fields result_str pps_str is_utf8 has_field bytes_eq contains reason
    supporting_data with_documentation_url failure_report
timeout-Storable = record {
  reasoned = tt;
  context = record {
    keys = ((refl, contains-Lacks b'=' (codes "error") refl), tt);
    result = refl;
    agent = refl;
    vm_id = refl;
    timestamp = refl;
    pps_type = refl;
    reason = refl;
    documentation_url = refl;
  };
  dated = refl;
  no_nul = omega arith;
  utf8 = (refl, (refl, (refl, (refl, (refl, (refl, (refl, (refl, tt))))))));
}

from_str-as_encoded_report_example :
    from_str stand_in
      (as_encoded_report stand_in version (codes "now") display same_order timeout (codes "vm"))
    ≡ ok (error_report stand_in version (codes "now") display same_order timeout (codes "vm"))
from_str-as_encoded_report_example =
    from_str-as_encoded_report stand_in version (codes "now") stand_in-CsvLaws display same_order
      timeout (codes "vm") timeout-Storable

abbrev boot : Entry
boot = (codes "boot", codes "first")

ready-Storable :
    Storable stand_in (ready_report stand_in version (codes "now") (codes "vm") (some boot))
unfolding report_fields result_str pps_str is_utf8 has_field bytes_eq contains success_report
ready-Storable = record {
  reasoned = tt;
  context = record {
    keys = ((refl, contains-Lacks b'=' (codes "boot") refl), tt);
    result = refl;
    agent = refl;
    vm_id = refl;
    timestamp = refl;
    pps_type = refl;
    reason = refl;
    documentation_url = refl;
  };
  dated = refl;
  no_nul = omega arith;
  utf8 = (refl, (refl, (refl, (refl, (refl, (refl, tt))))));
}

from_str-encoded_success_report_example :
    from_str stand_in
      (encoded_success_report stand_in version (codes "now") (codes "vm") (some boot))
    ≡ ok (ready_report stand_in version (codes "now") (codes "vm") (some boot))
from_str-encoded_success_report_example =
    from_str-encoded_success_report stand_in version (codes "now") stand_in-CsvLaws (codes "vm")
      (some boot) ready-Storable
