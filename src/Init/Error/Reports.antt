-- ===== src/Init/Error/Reports.antt =====
-- The agent's encoded reports, and what libazureinit-kvp reads of them.
use azure_init.Prelude.{
  ◌≡◌, refl, ap, sym, ◌∙◌, Option, none, some, List, [], ◌∷◌, ◌++◌, Bytes, codes,
}
use mathlib.Core.List.{map-append}
use azure_init.Result.{ok}
use azure_init.Kvp.Store.Record.{Entry}
use azure_init.Kvp.Report.{
  Csv, pop_newline, result_str, pps_str, ProvisioningReport, no_pps, failure_report, success_report,
  with_documentation_url, encode, from_str, report_fields, field_text,
}
use azure_init.Kvp.Report.RoundTrip.{CsvLaws, Storable, from_str-encode}
use azure_init.Init.Error.{
  Error, documentation_url_text, reason, supporting_data, agent_text, as_encoded_report,
  encoded_success_report,
}

module _ (csv : Csv) (version now : Bytes) where
  -- The report of an error, as libazureinit-kvp would make it.
  abbrev pub error_report :
      (Error → Bytes) → (List Entry → List Entry) → Error → Bytes → ProvisioningReport
  error_report display iter e vm_id =
      record (with_documentation_url
        (failure_report now (agent_text version) vm_id (reason e) no_pps) documentation_url_text) {
          extra = supporting_data display iter e;
        }

  abbrev extra_of : Option Entry → List Entry
  extra_of none = []
  extra_of (some e) = e ∷ []

  abbrev pub ready_report : Bytes → Option Entry → ProvisioningReport
  ready_report vm_id optional_key_value =
      record (success_report now (agent_text version) vm_id no_pps) {
        extra = extra_of optional_key_value;
      }

  as_encoded_report-encode :
      (display : Error → Bytes) (iter : List Entry → List Entry) (e : Error) (vm_id : Bytes)
      → as_encoded_report csv version now display iter e vm_id
        ≡ encode csv (error_report display iter e vm_id)
  unfolding as_encoded_report encode with_documentation_url failure_report report_fields result_str
      pps_str
  as_encoded_report-encode display iter e vm_id =
      ap
        (λ fields. pop_newline (
          csv.write_record (
            codes "result=error"
            ∷ (codes "reason=" ++ reason e)
            ∷ (codes "agent=" ++ agent_text version)
            ∷ fields)))
        (sym (
          map-append field_text (supporting_data display iter e) (
            (codes "pps_type", codes "None")
            ∷ (codes "vm_id", vm_id)
            ∷ (codes "timestamp", now)
            ∷ (codes "documentation_url", documentation_url_text)
            ∷ [])))

  encoded_success_report-encode :
      (vm_id : Bytes) (optional_key_value : Option Entry)
      → encoded_success_report csv version now vm_id optional_key_value
        ≡ encode csv (ready_report vm_id optional_key_value)
  unfolding encoded_success_report encode success_report report_fields result_str pps_str
  encoded_success_report-encode vm_id none = refl
  encoded_success_report-encode vm_id (some e) = refl

  module _ (laws : CsvLaws csv) where
    -- The report that the agent encodes for an error, where it can be stored, is read by
    -- libazureinit-kvp as a failure with the error's reason, its supporting data and the URL of the
    -- documentation.
    pub from_str-as_encoded_report :
        (display : Error → Bytes) (iter : List Entry → List Entry) (e : Error) (vm_id : Bytes)
        → Storable csv (error_report display iter e vm_id)
        → from_str csv (as_encoded_report csv version now display iter e vm_id)
          ≡ ok (error_report display iter e vm_id)
    unfolding with_documentation_url failure_report
    from_str-as_encoded_report display iter e vm_id s =
        ap (from_str csv) (as_encoded_report-encode display iter e vm_id)
        ∙ from_str-encode csv (error_report display iter e vm_id) laws s

    -- The report that the agent encodes when it is ready, where it can be stored, is read by
    -- libazureinit-kvp as a success with the optional field.
    pub from_str-encoded_success_report :
        (vm_id : Bytes) (optional_key_value : Option Entry)
        → Storable csv (ready_report vm_id optional_key_value)
        → from_str csv (encoded_success_report csv version now vm_id optional_key_value)
          ≡ ok (ready_report vm_id optional_key_value)
    unfolding success_report
    from_str-encoded_success_report vm_id optional_key_value s =
        ap (from_str csv) (encoded_success_report-encode vm_id optional_key_value)
        ∙ from_str-encode csv (ready_report vm_id optional_key_value) laws s
