-- ===== src/Tests.antt =====
-- Concrete instances of the libraries that the models take as parameters, and runs of the theorems
-- on them.
mod Libraries
mod Uris
mod Requests
mod Servers
mod Starts
mod Clients
mod Certificates
mod Waits
mod Documents
mod Programs
mod Loads
mod Logins
mod Races
mod Stores
