-- ===== src/Examples/GateRuns.antt =====
-- The cases of images/kubescape-gate/main_test.go.
use nineteenseventytwo_platf.Prelude.{◌≡◌, refl, [], ◌∷◌, none, ok, err, Bytes, codes}
use nineteenseventytwo_platf.Gate.Types.{Pair_eq, malformed_line, not_control_id}
use nineteenseventytwo_platf.Gate.Normalize.{normalize}
use nineteenseventytwo_platf.Gate.Accepted.{parse_accepted}

normalize_deployment :
    normalize (codes "apps/v1/cert-manager/Deployment/cert-manager")
    ≡ codes "cert-manager/Deployment/cert-manager"
unfolding normalize
normalize_deployment = refl

normalize_generated :
    normalize (codes "/v1/longhorn-system/Pod/instance-manager-46852e7560c0d2b8ed7c9e0ed23bcb4a")
    ≡ codes "longhorn-system/Pod/instance-manager-*"
unfolding normalize
normalize_generated = refl

normalize_listener :
    normalize (codes "/v1/arc-systems/Pod/lab-deploy-6dd469fc-listener")
    ≡ codes "arc-systems/Pod/lab-deploy-*-listener"
unfolding normalize
normalize_listener = refl

normalize_cluster_scoped :
    normalize (codes "rbac.authorization.k8s.io/v1//ClusterRoleBinding/cluster-admin")
    ≡ codes "/ClusterRoleBinding/cluster-admin"
unfolding normalize
normalize_cluster_scoped = refl

normalize_short :
    normalize (codes "/v1/kube-system/Pod/etcd-1972-master-1")
    ≡ codes "kube-system/Pod/etcd-1972-master-1"
unfolding normalize
normalize_short = refl

abbrev accepted_text : Bytes
accepted_text =
    codes
      "\n# C-0013 Non-root containers - chart defaults\nC-0013 a/Deployment/x   # cert-manager\nC-0057 b/Deployment/y\n"

accepted_two :
    parse_accepted (record { content = accepted_text; failure = none })
    ≡ ok (
        record { control = codes "C-0013"; resource = codes "a/Deployment/x" }
        ∷ record { control = codes "C-0057"; resource = codes "b/Deployment/y" }
        ∷ [])
unfolding parse_accepted
accepted_two = refl

accepted_one_field :
    parse_accepted (record { content = codes "C-0013"; failure = none })
    ≡ err (malformed_line 1 (codes "C-0013"))
unfolding parse_accepted
accepted_one_field = refl

accepted_three_fields :
    parse_accepted (record { content = codes "C-0013 a b"; failure = none })
    ≡ err (malformed_line 1 (codes "C-0013 a b"))
unfolding parse_accepted
accepted_three_fields = refl

accepted_no_control :
    parse_accepted (record { content = codes "# x\n0013 a/Deployment/x"; failure = none })
    ≡ err (not_control_id 2 (codes "0013"))
unfolding parse_accepted
accepted_no_control = refl
