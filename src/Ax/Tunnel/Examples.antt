-- ===== src/Ax/Tunnel/Examples.antt =====
-- The records of two contexts of Kubernetes (engine/ax/internal/tunnel/tunnel.go).
use task_a.Prelude.{String, pos, ok, err, ◌≡◌, refl, if◌then◌else◌}
use task_a.Graph.Paths.Codes.{codes, list_eq, list_eq_refl, has_prefix}
use task_a.Graph.Paths.Clean.{clean, split, go_up, push, squash, join}
use task_a.Ax.Setup.Names.{Text, join_path}
use task_a.Ax.Tunnel.{TunnelInfo, Desk, sanitize_context, get_tunnel, save_tunnel, state_path}
use task_a.Ax.Tunnel.Kept.{IsFolder, get_tunnel-save_tunnel}

-- The last file that was written.
record Written : Type 0 where
  path : Text
  text : String

abbrev of_admin : TunnelInfo
of_admin = record {
  context = codes "cluster:admin";
  namespace = codes "ax-system";
  service = codes "ax-server";
  port = pos 40000;
  pid = pos 7;
  created_at = 0;
}

abbrev one_file : Desk Written
one_file = record {
  tunnel_dir = λ w. (ok (codes "/home/me/.ax/tunnels"), w);
  read_file = λ p w. if list_eq p w.path then ok w.text else err (codes "no such file");
  write_file = λ p text w. (ok tt, record { path = p; text = text });
  remove = λ p w. w;
  terminate = λ n w. w;
  encode = λ t. ok "admin";
  decode = λ text. ok of_admin;
}

one_file-IsFolder : IsFolder one_file (codes "/home/me/.ax/tunnels")
one_file-IsFolder = record { there = λ w. refl; written = λ p text w h. rw (list_eq_refl p) refl }

abbrev blank : Written
blank = record { path = codes "/"; text = "" }

program : Unit {0}
unfolding list_eq has_prefix clean split go_up push squash join join_path sanitize_context
    get_tunnel save_tunnel state_path
program = tt

-- Another context reads this one's tunnel.
get_tunnel-save_tunnel_example :
    (get_tunnel one_file (codes "cluster/admin") (save_tunnel one_file of_admin blank).1).0
    ≡ ok of_admin
unfolding program
get_tunnel-save_tunnel_example =
    get_tunnel-save_tunnel one_file (codes "/home/me/.ax/tunnels") one_file-IsFolder of_admin
      (codes "cluster/admin") blank (λ text h. refl) refl refl
