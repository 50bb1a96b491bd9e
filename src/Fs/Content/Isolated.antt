-- ===== src/Fs/Content/Isolated.antt =====
-- kernel/fs.c: a write to one file and the content of the others.
use os_final_project.Prelude.{
  ℕ, ◌+◌, ◌*◌, ◌≤◌, ◌<◌, ◌≡◌, ◌≢◌, sym, ◌∙◌, subst, some, some-injective,
}
use os_final_project.Fs.{Super, Disk, Inode, maxfile, bsize}
use os_final_project.Fs.Blocks.Table.{slot, IsFile}
use os_final_project.Fs.Content.{Source, writei}
use os_final_project.Fs.Content.View.{content}
use os_final_project.Fs.Content.Frame.{Outside, Kept, Kept-content}
use os_final_project.Fs.Content.Write.{writei_lem}

-- For an inode whose blocks are a table, and another one with no block in common with it: a write to the first
-- changes no byte of the content of the other.
pub writei_isolated :
    {sb : Super} {d d' : Disk} {ip ip' : Inode} {tot : ℕ} (other : Inode) (s : Source) (off n : ℕ)
    → IsFile sb d ip
    → ((i : ℕ) → i ≤ maxfile → slot d other i ≢ 0 → Outside sb d ip (slot d other i))
    → off ≤ ip.size
    → off + n ≤ maxfile * bsize
    → writei sb ip s off n d ≡ some (tot, ip', d')
    → (p : ℕ) → p < maxfile * bsize
    → content d' other p ≡ content d other p
writei_isolated {sb} {d} {d'} {ip} {ip'} other s off n file out le fits e =
    let (t, k, i, x, e', r) = writei_lem s off n file le fits in
    Kept-content sb d d' ip ip' other out
      (subst (λ r. Kept sb d ip r.1 r.2) (some-injective _ _ (sym e' ∙ e)) r.kept)
