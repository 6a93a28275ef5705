-- ===== src/Itest.antt =====
-- itest: the node that the end-to-end tests run in a container. The tests themselves are not
-- modelled.
pub mod Docker
pub mod Testify
pub mod Containers
pub mod Node
