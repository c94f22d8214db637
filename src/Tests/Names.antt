-- ===== src/Tests/Names.antt =====
-- Runs of the checks on names.
use dotvirt.Prelude.{all, refl, true, [], Bytes, bytes, ◌≡◌, ◌∷◌}
use dotvirt.Validate.{dns1123_name, dns1123_label, label_tail, repo_path}
use dotvirt.Validate.Segments.{join_path, repo_path_names}

abbrev clean : Bytes → Bytes
clean p = p

names_pass : all dns1123_name (bytes "vms" ∷ bytes "web-1" ∷ []) ≡ true
unfolding dns1123_name dns1123_label label_tail
names_pass = refl

repo_path_names_example : repo_path clean (join_path (bytes "vms" ∷ bytes "web-1" ∷ [])) ≡ true
repo_path_names_example =
    repo_path_names clean (bytes "vms") (bytes "web-1" ∷ []) (λ p h. refl) names_pass
