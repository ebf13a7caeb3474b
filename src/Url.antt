-- ===== src/Url.antt =====
-- Which repository URLs there are: `isSSHRepositoryURL` of internal/git/repository.go and of
-- internal/controller/gitapplication_controller.go, with the pattern `sshSCPStyle` of both.
use cabure.Base.{Bool, true, false, not, ◌&&◌, ◌||◌, [], ◌∷◌, ◌==◌, nat_eq, list_eq, if◌then◌else◌}
use cabure.Text.{Text, codes, has_prefix, is_space}

-- `.+` behind the colon: a byte that ends no line.
scp_path : Text → Bool
scp_path [] = false
scp_path (c ∷ s) = not (c == 10)

-- `[^:[:space:]]+:` and the rest; the flag says that the host has begun.
scp_host : Bool → Text → Bool
scp_host begun [] = false
scp_host begun (c ∷ s) =
    let rest = scp_host true s in
    if c == b':' then begun && scp_path s else if is_space c then false else rest

-- `[^@[:space:]]+@` and the rest.
scp_user : Bool → Text → Bool
scp_user begun [] = false
scp_user begun (c ∷ s) =
    let rest = scp_user true s in
    if c == b'@' then begun && scp_host false s else if is_space c then false else rest

-- `sshSCPStyle.MatchString`
unfoldable pub matches_scp_style : Text → Bool
unfolding scp_user scp_host scp_path
matches_scp_style url = scp_user false url

-- `isSSHRepositoryURL`
unfoldable pub is_ssh_repository_url : Text → Bool
unfolding matches_scp_style has_prefix
is_ssh_repository_url url = has_prefix url (codes "ssh://") || matches_scp_style url

-- `isSupportedRepositoryURL`
unfoldable pub is_supported_repository_url : Text → Bool
unfolding is_ssh_repository_url
is_supported_repository_url url = has_prefix url (codes "https://") || is_ssh_repository_url url
