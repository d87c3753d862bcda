-- ===== src/Override/Tests.antt =====
-- Runs of `--metrics`, and its theorem at a concrete input.
use real_time_system_metrics.Base.{◌≡◌, refl, true, false, [], ◌∷◌, codes, bytes_eq}
use real_time_system_metrics.Selection.{default_selection}
use real_time_system_metrics.Override.{no_selection, split_csv, apply_metrics_override}
use real_time_system_metrics.Override.Flags.{asked}
use real_time_system_metrics.Override.Spec.{first_decisive, decided, apply_metrics_override-decided}

split_example : split_csv (codes ",a,,b,") ≡ codes "a" ∷ codes "b" ∷ []
unfolding split_csv
split_example = refl

io_selects_processes :
    apply_metrics_override (codes "Process_IO,total_cpu") default_selection [] ≡ record {
      accepted = true;
      selection = record no_selection { total_cpu = true; top_processes = true; process_io = true };
      error = [];
    }
unfolding apply_metrics_override bytes_eq
io_selects_processes = refl

unknown_token : apply_metrics_override (codes "total_cpu,Disk") default_selection [] ≡ record {
  accepted = false;
  selection = default_selection;
  error = codes "Unknown metric selector: Disk";
}
unfolding apply_metrics_override bytes_eq
unknown_token = refl

apply_metrics_override-decided_example :
    let tokens = split_csv (codes "total_cpu,Disk") in
    apply_metrics_override (codes "total_cpu,Disk") default_selection []
    ≡ decided (asked no_selection tokens) (first_decisive tokens) default_selection []
apply_metrics_override-decided_example =
    apply_metrics_override-decided (codes "total_cpu,Disk") default_selection []
