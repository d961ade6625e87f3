-- ===== src/Ax/Tunnel.antt =====
-- The tunnels' records (engine/ax/internal/tunnel/tunnel.go), one file for each context of Kubernetes. A name
-- is the list of its code points.
pub mod Kept
pub mod Examples
use task_a.Prelude.{
  String, ℕ, ℤ, pos, negsuc, zero, suc, Bool, true, false, ◌&&◌, ◌||◌, List, [], ◌∷◌, ◌++◌, map,
  Option, none, some, Result, ok, err, Exec, leb, nat_eq, if◌then◌else◌,
}
use task_a.Graph.Paths.Codes.{codes}
use task_a.Ax.Setup.Names.{Text, join_path, is_nil}

pub record TunnelInfo : Type 0 where
  pub context : Text
  pub namespace : Text
  pub service : Text
  pub port : ℤ
  pub pid : ℤ
  pub created_at : ℕ

-- A letter or a digit of ASCII, '-' or '_'
abbrev pub is_plain : ℕ → Bool
is_plain c =
    (leb 97 c && leb c 122)
    || ((leb 65 c && leb c 90) || ((leb 48 c && leb c 57) || (nat_eq c 45 || nat_eq c 95)))

abbrev pub plain : Text → Text
plain s = map (λ c. if is_plain c then c else 95) s

abbrev pub or_default : Text → Text
or_default [] = codes "default"
or_default (c ∷ s) = c ∷ s

unfoldable pub sanitize_context : Text → Text
sanitize_context name = or_default (plain name)

-- The files and processes of the machine. `tunnel_dir` makes the directory of the records too; `encode`
-- and `decode` are JSON.
pub record Desk (W : Type 0) : Type 0 where
  pub tunnel_dir : Exec W Text Text
  pub read_file : Text → W → Result Text String
  pub write_file : Text → String → Exec W Text (Unit {0})
  pub remove : Text → W → W
  pub terminate : ℕ → W → W
  pub encode : TunnelInfo → Result Text String
  pub decode : String → Result Text TunnelInfo

module _ {W : Type 0} (m : Desk W) where
  abbrev pub in_dir :
      {A : Type 0} → (Text → Exec W Text A) → Result Text Text × W → Result Text A × W
  in_dir rest (err e, w) = (err e, w)
  in_dir rest (ok dir, w) = rest dir w

  abbrev pub state_path : (dir context : Text) → Text
  unfolding join_path sanitize_context
  state_path dir context = join_path dir (sanitize_context context ++ codes ".json")

  abbrev pub decoded : Result Text String → Result Text TunnelInfo
  decoded (err e) = err e
  decoded (ok text) = m.decode text

  unfoldable pub get_tunnel : (context : Text) → Exec W Text TunnelInfo
  get_tunnel context w =
      in_dir (λ dir v. (decoded (m.read_file (state_path dir context) v), v)) (m.tunnel_dir w)

  abbrev pub put : Text → Result Text String → Exec W Text (Unit {0})
  put path (err e) w = (err e, w)
  put path (ok text) w = m.write_file path text w

  unfoldable pub save_tunnel : TunnelInfo → Exec W Text (Unit {0})
  save_tunnel info w =
      in_dir (λ dir v. put (state_path dir info.context) (m.encode info) v) (m.tunnel_dir w)

  abbrev pub terminated : ℤ → W → W
  terminated (pos zero) w = w
  terminated (negsuc n) w = w
  terminated (pos (suc n)) w = m.terminate (suc n) w

  abbrev pub forget : TunnelInfo → Result Text Text × W → W
  forget info (err e, w) = w
  forget info (ok dir, w) = m.remove (state_path dir info.context) w

  -- `terminate` stands for the two signals; they and the removal may fail unnoticed.
  unfoldable pub stop_tunnel : Option TunnelInfo → W → W
  stop_tunnel none w = w
  stop_tunnel (some info) w = forget info (m.tunnel_dir (terminated info.pid w))

  abbrev pub stopped : Result Text TunnelInfo × W → Result Text (Unit {0}) × W
  unfolding stop_tunnel
  stopped (err e, w) = (err e, w)
  stopped (ok info, w) = (ok tt, stop_tunnel (some info) w)

  unfoldable pub stop_tunnel_by_context : (context : Text) → Exec W Text (Unit {0})
  unfolding get_tunnel
  stop_tunnel_by_context context w = stopped (get_tunnel context w)
