-- ===== src/Tests/Storage.antt =====
-- Tests of the store: two writes of one code's bars.
use quant_data_center_cn.Prelude.{
  String, leb, string_eq, Option, none, some, List, [], ◌∷◌, true, false, if◌then◌else◌, ◌==◌, ◌≡◌,
  refl,
}
use quant_data_center_cn.Prelude.Dict.{Dict, lookup, insert}
use quant_data_center_cn.Storage.{Row, FileKey, upsert, DatasetDefinition, Store, raises}
use quant_data_center_cn.Storage.Writes.{
  write_dataset, write_prepared_dataset, atomic_write, upsert_manifest_after_write, upsert_manifest,
}
use quant_data_center_cn.Storage.Keeps.{Keeps}
use quant_data_center_cn.Storage.Recorded.{IsRecorded, AtRaise, write_dataset-IsRecorded}
use quant_data_center_cn.Storage.Upserted.{UpsertEnds, write_dataset-UpsertEnds}

abbrev definition : DatasetDefinition
definition = record {
  id = "bars";
  partition_column = some "code";
  unique_columns = "code" ∷ "date" ∷ [];
  fixed_column_values = [];
  six_digit = false;
  default_write_mode = upsert;
  sort = λ rows. rows;
  validator = λ rows. true;
}

abbrev row : String → Row
row date name = if name == "code" then some "sh.600000" else some date

abbrev rows : List Row
rows = row "2026-06-11" ∷ row "2026-06-12" ∷ []

abbrev fields : Dict String (Option String)
fields = ("code", some "sh.600000") ∷ []

abbrev store : Store
store = record { files = []; manifest = []; dirty_datasets = []; calls = 0 }

abbrev hash : List Row → String
hash stored = "hash"

empty-IsRecorded : IsRecorded hash store
unfolding lookup
empty-IsRecorded path found e = let impossible : none ≡ some found = e in cc

write_dataset-IsRecorded_example :
    Keeps
      (IsRecorded hash)
      (AtRaise hash)
      (write_dataset (λ c. true) (λ n. true) hash false definition rows none none false store)
write_dataset-IsRecorded_example =
    write_dataset-IsRecorded (λ c. true) (λ n. true) hash definition rows none none false store
      empty-IsRecorded

write_dataset-UpsertEnds_example :
    UpsertEnds
      (λ c. true)
      definition
      (λ rs r. (λ i. i, λ i. i))
      refl
      (λ n. true)
      hash
      false
      rows
      (some fields)
      []
      (write_dataset
        (λ c. true)
        (λ n. true)
        hash
        false
        definition
        rows
        (some fields)
        (some upsert)
        false
        store)
write_dataset-UpsertEnds_example =
    write_dataset-UpsertEnds (λ c. true) definition (λ rs r. (λ i. i, λ i. i)) refl (λ n. true) hash
      false rows fields store

abbrev path : FileKey
path = ("bars", ("code", "sh.600000"))

-- The file is written, and the manifest refuses its row: the write raises with the new file in place.
manifest_refused :
    write_prepared_dataset (λ c. true) (λ n. leb n 0) hash false definition rows path store
    ≡ raises (record { files = (path, rows) ∷ []; manifest = []; dirty_datasets = []; calls = 2 })
unfolding write_prepared_dataset atomic_write upsert_manifest_after_write upsert_manifest insert
manifest_refused = refl
