-- ===== src/Model/Rows/Tests.antt =====
-- The round trip of rows at a small model.
use noware.Prelude.{◌≡◌, refl, some, mem, map}
use noware.Model.Sample.{wired}
use noware.Model.Rows.{export_rows, rows_to_workspace}
use noware.Model.Rows.RoundTrip.{IsExportable, full_system, rows_to_workspace-export_rows}

wired-IsExportable : IsExportable wired
unfolding mem
wired-IsExportable = record {
  systems = (refl, tt);
  containers = (refl, tt);
  components = tt;
  named_systems = refl;
  named_containers = refl;
  named_components = refl;
  in_systems = ((refl, tt), tt);
  in_containers = (tt, tt);
  in_components = tt;
}

rows_to_workspace-export_rows_example :
    rows_to_workspace (export_rows "main" wired) "model" (some "again") ≡ record wired {
      description = some "again";
      software_systems = map full_system wired.software_systems;
    }
rows_to_workspace-export_rows_example =
    rows_to_workspace-export_rows "main" wired wired-IsExportable (some "again")
