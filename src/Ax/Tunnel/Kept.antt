-- ===== src/Ax/Tunnel/Kept.antt =====
-- A tunnel that was saved, read back (engine/ax/internal/tunnel/tunnel.go).
use task_a.Prelude.{
  String, Result, ok, err, ok-injective, Exec, ◌≡◌, sym, ap, ◌∙◌, inl, inr, Result-cases, ◌++◌,
}
use task_a.Graph.Paths.Codes.{codes}
use task_a.Ax.Setup.Names.{Text, join_path}
use task_a.Ax.Tunnel.{
  TunnelInfo, Desk, sanitize_context, in_dir, state_path, decoded, put, get_tunnel, save_tunnel,
}

-- The directory is always the same and can be made, and a file that was written is read as it was
-- written, also once the directory was made again.
pub record IsFolder {W : Type 0} (m : Desk W) (dir : Text) : Type 0 where
  pub there : (w : W) → (m.tunnel_dir w).0 ≡ ok dir
  pub written :
      (path : Text) (text : String) (w : W)
      → (m.write_file path text w).0 ≡ ok tt
      → m.read_file path (m.tunnel_dir (m.write_file path text w).1).1 ≡ ok text

module _ {W A : Type 0} (m : Desk W) where
  in_dir-ok :
      (dir : Text) (rest : Text → Exec W Text A) (x : Result Text Text × W)
      → x.0 ≡ ok dir
      → in_dir m rest x ≡ rest dir x.1
  in_dir-ok dir rest (err e, w) h = cc (h)
  in_dir-ok dir rest (ok d, w) h =
      let same : d ≡ dir = ok-injective h in ap (λ (d : Text). rest d w) same

module _ {W : Type 0} (m : Desk W) (dir : Text) (folder : IsFolder m dir) where
  -- The record that `SaveTunnel` has written is what `GetTunnel` gives for every context whose name is
  -- cleaned to the same, be it the same context or not. JSON is taken to be faithful to the record, and
  -- the files to be kept.
  pub get_tunnel-save_tunnel :
      (info : TunnelInfo) (context : Text) (w : W)
      → ((text : String) → m.encode info ≡ ok text → m.decode text ≡ ok info)
      → sanitize_context context ≡ sanitize_context info.context
      → (save_tunnel m info w).0 ≡ ok tt
      → (get_tunnel m context (save_tunnel m info w).1).0 ≡ ok info
  unfolding get_tunnel save_tunnel state_path
  get_tunnel-save_tunnel info context w faithful same done = elim (Result-cases (m.encode info)) [
    | inr (e, q) ↦ cc (
        sym done
        ∙ ap (λ y. y.0)
            (saved ∙ ap (λ t. put m (state_path m dir info.context) t (m.tunnel_dir w).1) q))
    | inl (text, q) ↦
        let path = state_path m dir info.context in
        let v = (m.tunnel_dir w).1 in
        let ends = saved ∙ ap (λ t. put m path t v) q in
        let wrote : (m.write_file path text v).0 ≡ ok tt = ap (λ y. y.0) (sym ends) ∙ done in
        ap (λ y. (get_tunnel m context y.1).0) ends
        ∙ ap (λ y. y.0)
            (in_dir-ok m dir _ (m.tunnel_dir (m.write_file path text v).1) (folder.there _))
        ∙ ap (λ (p : Text). decoded m (m.read_file p (m.tunnel_dir (m.write_file path text v).1).1))
            (ap (λ (n : Text). join_path dir (n ++ codes ".json")) same)
        ∙ ap (decoded m) (folder.written path text v wrote)
        ∙ faithful text q
  ]
    where
      saved :
          save_tunnel m info w
          ≡ put m (state_path m dir info.context) (m.encode info) (m.tunnel_dir w).1
      saved = in_dir-ok m dir _ (m.tunnel_dir w) (folder.there w)
